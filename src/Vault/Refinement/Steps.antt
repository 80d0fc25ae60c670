-- ===== src/Vault/Refinement/Steps.antt =====
-- Requests on the vault, as the operations of vault.py and on the dict of secrets.

use pipe_os.Prelude.{
  ℕ, ◌≡◌, refl, Bool, true, false, not, ◌&&◌, inl, inr, Bool-cases, Option, none, some,
  if◌then◌else◌, Text, text_eq, arith,
}
use pipe_os.Prelude.Fallible.{ok, ◌>>=◌}
use pipe_os.Prelude.Dict.{get, set, del, has}
use pipe_os.Prelude.Ascii.{has_char}
use pipe_os.Vault.{
  Secret, Secrets, Env, Ident, Outcome, Tools, Works, norm_phrase, seal, chassis_keys, phrase_keys,
  load, store,
}
use pipe_os.Vault.Names.{matches_name}
use pipe_os.Vault.Operations.{
  Fresh, Value, text, bytes, hint, checked, record_of, new_phrase, put, set_shared, at_time,
  unset_shared, delete, unlock, rephrase,
}
use pipe_os.Vault.Refinement.{
  Holds, Opens, Holds-Opens, open_blob-seal, load-Holds, load-phrase, store-Holds,
}

-- What is asked of a vault; `move` is an `unlock` with a phrase, on the hardware that it names.
pub data Request : Type 0 where
  put_in : (name : Text) → Value → (consumer by : Text) → Request
  share : (name member : Text) → Option ℕ → Request
  unshare : (name member : Text) → Request
  forget : Text → Request
  move : Ident → Text → Request
  renew : Request

-- What a vault is, for those who use it: the hardware and the phrase that open it, and its secrets.
pub record Safe : Type 0 where
  pub ident : Ident
  pub digits : Text
  pub secrets : Secrets

abbrev pub plain : Value → Bool
plain (text x) = not (has_char 0 x)
plain (bytes x) = true

module _ (t : Tools) where
  -- The operation of vault.py, with the file it leaves.
  unfoldable pub run : Ident → Request → Fresh → Option Env → Outcome (Option Env)
  run i (put_in name value consumer by) f file = put t i name value consumer by f file
  run i (share name member when) f file = set_shared t i name member when f file
  run i (unshare name member) f file = do r ← unset_shared t i name member f file; ok r.0
  run i (forget name) f file = do r ← delete t i name f file; ok r.0
  run i (move j typed) f file = unlock t j typed f file
  run i renew f file = do r ← rephrase t i f file; ok r.0

  -- The same on the dict; `none` is a refusal.
  unfoldable pub promise : Request → Fresh → Safe → Option Safe
  unfolding get has
  promise (put_in name value consumer by) f s =
      if matches_name name && plain value
      then some (record s {
        secrets = set name (record_of t s.ident name value consumer by f.now s.secrets) s.secrets;
      })
      else none
  promise (share name member when) f s = elim (get name s.secrets) [
    | none ↦ none
    | some x ↦ some (record s {
      secrets =
          set name (record x { shared = set member (at_time t s.ident when f.now) x.shared })
            s.secrets;
    })
  ]
  promise (unshare name member) f s = elim (get name s.secrets) [
    | none ↦ none
    | some x ↦
        (if has member x.shared
          then some (record s {
            secrets = set name (record x { shared = del member x.shared }) s.secrets;
          })
          else some s)
  ]
  promise (forget name) f s =
      if has name s.secrets then some (record s { secrets = del name s.secrets }) else some s
  promise (move j typed) f s =
      if text_eq (norm_phrase typed) s.digits then some (record s { ident = j }) else none
  promise renew f s = some (record s { digits = norm_phrase (new_phrase f.token) })

module _ (t : Tools) (w : Works t) where
  abbrev pub Kept : Safe → Option Env → Type 0
  Kept s file = Holds t w s.ident s.digits s.secrets file

  -- A request that returns, with a file that holds `s` as a part of what it returns.
  unfoldable pub LeavesIn : {A : Type 0} → (A → Option Env) → Outcome A → Safe → Type 0
  LeavesIn {A} part r s = (a : A) × (r ≡ ok a) × Kept s (part a)

  abbrev pub first_of : {B : Type 0} → Option Env × B → Option Env
  first_of r = r.0

  abbrev pub Leaves : Outcome (Option Env) → Safe → Type 0
  Leaves = LeavesIn (λ file. file)

  -- What follows a step that returns.
  pub after :
      {A B : Type 0} (part : B → Option Env) (m : Outcome A) (g : A → Outcome B) (s : Safe) {a : A}
      → m ≡ ok a
      → LeavesIn part (g a) s
      → LeavesIn part (m >>= g) s
  after part m g s e l = rw e l

  -- A file that is returned beside something else, and the way back.
  pub paired :
      {B : Type 0} (b : B) (m : Outcome (Option Env)) (s : Safe)
      → Leaves m s
      → LeavesIn first_of (m >>= λ file. ok (file, b)) s
  unfolding LeavesIn
  paired b m s (file, e, h) = ((file, b), rw e refl, h)

  pub unpaired :
      {B : Type 0} (m : Outcome (Option Env × B)) (s : Safe)
      → LeavesIn first_of m s
      → Leaves (m >>= λ r. ok r.0) s
  unfolding LeavesIn
  unpaired m s (r, e, h) = (r.0, rw e refl, h)

  checked-plain : (v : Value) → plain v ≡ true → checked v ≡ ok v
  unfolding checked
  checked-plain (text x) h = ground (arith, h)
  checked-plain (bytes x) h = refl

  -- A new dict of secrets in the envelope that was read.
  stored_again :
      (s : Safe) (file : Option Env) (h : Kept s file) (salt : Text) (now : ℕ) (d : Secrets)
      → Leaves (store t salt now h.env h.k d) (record s { secrets = d })
  unfolding LeavesIn
  stored_again s file h salt now d = store-Holds t w salt now d (Holds-Opens t w h)

  pub run-put :
      (name : Text) (v : Value) (consumer by : Text) (f : Fresh) (s : Safe) (file : Option Env)
      → matches_name name ≡ true
      → plain v ≡ true
      → Kept s file
      → Leaves (put t s.ident name v consumer by f file) (record s {
        secrets = set name (record_of t s.ident name v consumer by f.now s.secrets) s.secrets;
      })
  unfolding put
  run-put name v consumer by f s file named plain_v h =
      rw (named, load-Holds t w h, checked-plain v plain_v)
        (stored_again s file h f.first_salt f.now _)

  pub run-share :
      (name member : Text) (when : Option ℕ) (f : Fresh) (s : Safe) (file : Option Env) (x : Secret)
      → get name s.secrets ≡ some x
      → Kept s file
      → Leaves (set_shared t s.ident name member when f file) (record s {
        secrets =
            set name
              (record x { shared = set member (at_time t s.ident when f.now) x.shared })
              s.secrets;
      })
  unfolding set_shared
  run-share name member when f s file x found h =
      after _ (load t s.ident none file) _ _ (load-Holds t w h)
        (rw found (stored_again s file h f.first_salt f.now _))

  pub run-unshare :
      (name member : Text) (f : Fresh) (s : Safe) (file : Option Env) (x : Secret)
      → get name s.secrets ≡ some x
      → Kept s file
      → LeavesIn first_of (unset_shared t s.ident name member f file) (
          if has member x.shared
          then record s { secrets = set name (record x { shared = del member x.shared }) s.secrets }
          else s)
  unfolding unset_shared LeavesIn
  run-unshare name member f s file x found h =
      after _ (load t s.ident none file) _ _ (load-Holds t w h) (
        rw found (elim (Bool-cases (has member x.shared)) [
          | inl there ↦ rw there (paired true _ _ (stored_again s file h f.first_salt f.now _))
          | inr absent ↦ rw absent ((file, false), refl, h)
        ]))

  pub run-forget :
      (name : Text) (f : Fresh) (s : Safe) (file : Option Env)
      → Kept s file
      → LeavesIn first_of
          (delete t s.ident name f file)
          (if has name s.secrets then record s { secrets = del name s.secrets } else s)
  unfolding delete LeavesIn
  run-forget name f s file h =
      after _ (load t s.ident none file) _ _ (load-Holds t w h)
        (elim (Bool-cases (has name s.secrets)) [
          | inl there ↦ rw there (paired true _ _ (stored_again s file h f.first_salt f.now _))
          | inr absent ↦ rw absent ((file, false), refl, h)
        ])

  pub run-move :
      (j : Ident) (typed : Text) (f : Fresh) (s : Safe) (file : Option Env)
      → Holds t w s.ident (norm_phrase typed) s.secrets file
      → Leaves (unlock t j typed f file) (record s { ident = j; digits = norm_phrase typed })
  unfolding unlock LeavesIn
  run-move j typed f s file h =
      let env' : Env = record (h.env) {
        chassis = record { salt = f.chassis_salt; wrapped = h.env.chassis.wrapped };
      } in
      let (c, sealed, opened) = open_blob-seal t w (chassis_keys t env' j) f.first_salt h.k in
      let env'' : Env = record (h.env) {
        chassis = record { salt = f.chassis_salt; wrapped = t.b64 c };
        ident_hint = hint j;
      } in
      let o : Opens t w j (norm_phrase typed) h.k env'' = record {
        version = h.version;
        by_chassis = rw (w.unb64-b64 c) opened;
        by_phrase = h.by_phrase;
      } in
      after _ (load t j (some typed) file) _ _ (load-phrase t w j typed h) (
        after _ (seal t (chassis_keys t env' j) f.first_salt h.k) _ _ sealed
          (store-Holds t w f.second_salt f.now s.secrets o))

  pub run-renew :
      (f : Fresh) (s : Safe) (file : Option Env)
      → Kept s file
      → LeavesIn first_of
          (rephrase t s.ident f file)
          (record s { digits = norm_phrase (new_phrase f.token) })
  unfolding rephrase LeavesIn
  run-renew f s file h =
      let phrase = new_phrase f.token in
      let env' : Env = record (h.env) {
        recovery = record { salt = f.recovery_salt; wrapped = h.env.recovery.wrapped };
      } in
      let (c, sealed, opened) = open_blob-seal t w (phrase_keys t env' phrase) f.first_salt h.k in
      let env'' : Env = record (h.env) {
        recovery = record { salt = f.recovery_salt; wrapped = t.b64 c };
      } in
      let o : Opens t w s.ident (norm_phrase phrase) h.k env'' = record {
        version = h.version;
        by_chassis = h.by_chassis;
        by_phrase = rw (w.unb64-b64 c) opened;
      } in
      after _ (load t s.ident none file) _ _ (load-Holds t w h) (
        after _ (seal t (phrase_keys t env' phrase) f.first_salt h.k) _ _ sealed
          (paired phrase _ _ (store-Holds t w f.second_salt f.now s.secrets o)))
