-- ===== src/Vault/Listing.antt =====
-- vault.py, `list_`: what is told of the secrets, without their values.
use pipe_os.Prelude.{ℕ, Bool, Option, none, List, [], ◌∷◌, ltb, if◌then◌else◌, Text}
use pipe_os.Prelude.Fallible.{ok, ◌>>=◌}
use pipe_os.Prelude.Dict.{Dict}
use pipe_os.Prelude.Ascii.{text_ltb, sorted_texts}
use pipe_os.Vault.{Secret, Secrets, Env, Ident, Outcome, Tools, load}

-- A row; `stale` are the members whose copy is older than the value.
pub record Listed : Type 0 where
  pub name : Text
  pub consumer : Text
  pub raw : Bool
  pub set_at : ℕ
  pub by : Text
  pub shared : Dict ℕ
  pub stale : List Text

unfoldable pub older : ℕ → Dict ℕ → List Text
older set_at [] = []
older set_at ((m, t) ∷ shared) =
    let rest = older set_at shared in if ltb t set_at then m ∷ rest else rest

unfoldable pub listed : Text → Secret → Listed
unfolding older sorted_texts
listed name s = record {
  name = name;
  consumer = s.consumer;
  raw = s.raw;
  set_at = s.set_at;
  by = s.by;
  shared = s.shared;
  stale = sorted_texts (older s.set_at s.shared);
}

put_row : Listed → List Listed → List Listed
put_row r [] = r ∷ []
put_row r (s ∷ rows) =
    let rest = put_row r rows in if text_ltb s.name r.name then s ∷ rest else r ∷ s ∷ rows

unfoldable pub rows_of : Secrets → List Listed
unfolding listed put_row
rows_of [] = []
rows_of ((name, s) ∷ d) = put_row (listed name s) (rows_of d)

-- `list_`
unfoldable pub list_secrets : Tools → Ident → Option Env → Outcome (List Listed)
unfolding load rows_of
list_secrets t i file = do (env, k, d) ← load t i none file; ok (rows_of d)
