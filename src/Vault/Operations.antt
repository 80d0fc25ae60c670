-- ===== src/Vault/Operations.antt =====
-- vault.py, the operations on the file of the vault. `Fresh` is what they draw and read: the clock,
-- random texts, and the salts that openssl draws.
use pipe_os.Prelude.{
  ℕ, zero, suc, Bool, true, false, ◌&&◌, not, Option, none, some, List, [], ◌∷◌, ◌-◌, ◌==◌,
  if◌then◌else◌, length, take, drop, Text, is_empty, join,
}
use pipe_os.Prelude.Fallible.{ok, err, ◌>>=◌}
use pipe_os.Prelude.Dict.{Dict, get, set, del, has}
use pipe_os.Prelude.Ascii.{has_char}
use pipe_os.Vault.{
  Secret, Secrets, Env, Ident, exists_already, no_secret, bad_name, contains_nul, Outcome, Tools,
  seal, load, store, chassis_keys, phrase_keys,
}
use pipe_os.Vault.Names.{matches_name, consumer_of}

pub record Fresh : Type 0 where
  pub now : ℕ
  pub key : Text
  pub token : Text
  pub seed : Text
  pub chassis_salt : Text
  pub recovery_salt : Text
  pub first_salt : Text
  pub second_salt : Text
  pub third_salt : Text

pub data Value : Type 0 where
  text bytes : Text → Value

pub data State : Type 0 where
  missing opened locked : State

-- Slices of four, on the length of the text.
fours : ℕ → Text → List Text
fours zero s = []
fours (suc n) s = take 4 s ∷ fours n (drop 4 s)

-- `_new_phrase` of 32 hex digits
unfoldable pub new_phrase : Text → Text
unfolding fours
new_phrase h = join b'-' (fours 8 h)

-- `(ident().get("mac") or "")[-5:]`
abbrev pub hint : Ident → Text
hint i = drop (length i.mac - 5) i.mac

-- `exists`
unfoldable pub exists : Option Env → Bool
exists none = false
exists (some env) = true

-- `(doc["secrets"].get(name) or {}).get("shared") or {}`
unfoldable pub copies : Text → Secrets → Dict ℕ
unfolding get
copies name d = elim (get name d) [ none ↦ [] | some s ↦ s.shared ]

-- The record that `set_` makes, and its checks.
unfoldable pub checked : Value → Outcome Value
checked (text s) = if has_char 0 s then err contains_nul else ok (text s)
checked (bytes s) = ok (bytes s)

module _ (t : Tools) (i : Ident) where
  unfoldable pub record_of : Text → Value → Text → Text → ℕ → Secrets → Secret
  unfolding consumer_of copies
  record_of name value consumer by now d =
      let put : Text → Bool → Secret = λ v raw. record {
        v = v;
        raw = raw;
        consumer = if is_empty consumer then consumer_of name else consumer;
        set_at = now;
        by = by;
        shared = copies name d;
      } in
      elim value [ text s ↦ put s false | bytes s ↦ put (t.b64 s) true ]

  -- `init`: the new file, and the phrase
  unfoldable pub init : Bool → Fresh → Option Env → Outcome (Option Env × Text)
  unfolding exists store new_phrase seal
  init force f file = if exists file && not force then err exists_already else (do
    let phrase = new_phrase f.token
    let env : Env = record {
      version = 1;
      seed = f.seed;
      created = f.now;
      ident_hint = hint i;
      chassis = record { salt = f.chassis_salt; wrapped = [] };
      recovery = record { salt = f.recovery_salt; wrapped = [] };
      payload = [];
      updated = 0;
    }
    c ← seal t (chassis_keys t env i) f.first_salt f.key
    r ← seal t (phrase_keys t env phrase) f.second_salt f.key
    file' ←
        store t f.third_salt f.now
          (record env {
            chassis = record { salt = f.chassis_salt; wrapped = t.b64 c };
            recovery = record { salt = f.recovery_salt; wrapped = t.b64 r };
          })
          f.key []
    ok (file', phrase))

  -- `status`
  unfoldable pub status : Option Env → State
  unfolding exists load
  status file =
      if not (exists file)
      then missing
      else elim (load t i none file) [ ok r ↦ opened | err e ↦ locked ]

  -- `get`
  unfoldable pub fetch : Text → Option Env → Outcome Value
  unfolding load get
  fetch name file = do
    (env, k, d) ← load t i none file
    elim (get name d) [
      | none ↦ err no_secret
      | some s ↦ ok (if s.raw then bytes (t.unb64 s.v) else text s.v)
    ]

  -- `set_`
  unfoldable pub put : Text → Value → Text → Text → Fresh → Option Env → Outcome (Option Env)
  unfolding load store record_of checked
  put name value consumer by f file = if not (matches_name name) then err bad_name else (do
    (env, k, d) ← load t i none file
    v ← checked value
    store t f.first_salt f.now env k (set name (record_of name v consumer by f.now d) d))

  -- `int(when or time.time())`
  abbrev pub at_time : Option ℕ → ℕ → ℕ
  at_time none now = now
  at_time (some when) now = if when == 0 then now else when

  -- `set_shared`
  unfoldable pub set_shared : Text → Text → Option ℕ → Fresh → Option Env → Outcome (Option Env)
  unfolding load store get
  set_shared name member when f file = do
    (env, k, d) ← load t i none file
    elim (get name d) [
      | none ↦ err no_secret
      | some s ↦
          store t f.first_salt f.now env k
            (set name (record s { shared = set member (at_time when f.now) s.shared }) d)
    ]

  -- `unset_shared`: the file, and whether it changed
  unfoldable pub unset_shared : Text → Text → Fresh → Option Env → Outcome (Option Env × Bool)
  unfolding load store get has
  unset_shared name member f file = do
    (env, k, d) ← load t i none file
    elim (get name d) [
      | none ↦ err no_secret
      | some s ↦
          if has member s.shared
          then (do
            file' ←
                store t f.first_salt f.now env k
                  (set name (record s { shared = del member s.shared }) d)
            ok (file', true))
          else ok (file, false)
    ]

  -- `delete`: the file, and whether it changed
  unfoldable pub delete : Text → Fresh → Option Env → Outcome (Option Env × Bool)
  unfolding load store has
  delete name f file = do
    (env, k, d) ← load t i none file
    if has name d
        then (do file' ← store t f.first_salt f.now env k (del name d); ok (file', true))
        else ok (file, false)

  -- `unlock`
  unfoldable pub unlock : Text → Fresh → Option Env → Outcome (Option Env)
  unfolding load store seal
  unlock phrase f file = do
    (env, k, d) ← load t i (some phrase) file
    let env' : Env = record env {
      chassis = record { salt = f.chassis_salt; wrapped = env.chassis.wrapped };
    }
    c ← seal t (chassis_keys t env' i) f.first_salt k
    store t f.second_salt f.now
        (record env {
          chassis = record { salt = f.chassis_salt; wrapped = t.b64 c };
          ident_hint = hint i;
        })
        k d

  -- `rephrase`: the file, and the new phrase
  unfoldable pub rephrase : Fresh → Option Env → Outcome (Option Env × Text)
  unfolding load store seal new_phrase
  rephrase f file = do
    (env, k, d) ← load t i none file
    let phrase = new_phrase f.token
    let env' : Env = record env {
      recovery = record { salt = f.recovery_salt; wrapped = env.recovery.wrapped };
    }
    r ← seal t (phrase_keys t env' phrase) f.first_salt k
    file' ←
        store t f.second_salt f.now
          (record env { recovery = record { salt = f.recovery_salt; wrapped = t.b64 r } }) k d
    ok (file', phrase)
