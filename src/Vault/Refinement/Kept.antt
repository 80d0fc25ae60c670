-- ===== src/Vault/Refinement/Kept.antt =====
-- Requests on the vault one after the other, `init`, and `get`.
use pipe_os.Prelude.{
  ℕ, ◌≡◌, refl, sym, ap, ◌∙◌, Bool, true, false, not, ◌&&◌, inl, inr, Bool-cases, Option,
  Option-cases, none, some, List, [], ◌∷◌, if◌then◌else◌, Text, text_eq, text_eq_iff, text_eq_self,
  arith,
}
use pipe_os.Prelude.Fallible.{ok, err, ◌>>=◌}
use pipe_os.Prelude.Dict.{get, set, has, get-set}
use pipe_os.Vault.{
  Secret, Secrets, Env, Ident, Outcome, no_secret, Tools, Works, norm_phrase, seal, chassis_keys,
  phrase_keys,
}
use pipe_os.Vault.Names.{matches_name}
use pipe_os.Vault.Operations.{
  Fresh, Value, text, bytes, hint, exists, record_of, new_phrase, init, fetch, put, unlock,
}
use pipe_os.Vault.Refinement.{Opens, open_blob-seal, load-Holds, store-Holds}
use pipe_os.Vault.Refinement.Steps.{
  Request, put_in, share, unshare, forget, move, renew, Safe, plain, run, promise, Kept, LeavesIn,
  Leaves, first_of, after, paired, unpaired, run-put, run-share, run-unshare, run-forget, run-move,
  run-renew,
}

-- The hardware that the stick is in after a request.
abbrev ident_after : Ident → Request → Ident
ident_after i (put_in name value consumer by) = i
ident_after i (share name member when) = i
ident_after i (unshare name member) = i
ident_after i (forget name) = i
ident_after i (move j typed) = j
ident_after i renew = i

module _ (t : Tools) where
  -- Requests one after the other, until one raises.
  unfoldable pub run_all : Ident → List (Request × Fresh) → Option Env → Outcome (Option Env)
  run_all i [] file = ok file
  run_all i ((r, f) ∷ rs) file = run t i r f file >>= run_all (ident_after i r) rs

  unfoldable pub promise_all : List (Request × Fresh) → Safe → Option Safe
  promise_all [] s = some s
  promise_all ((r, f) ∷ rs) s = elim (promise t r f s) [ none ↦ none | some s' ↦ promise_all rs s' ]

module _ (t : Tools) (w : Works t) where
  some-injective : {a b : Safe} → ◌≡◌ {A = Option Safe} (some a) (some b) → a ≡ b
  some-injective h = cc

  run-Leaves :
      (r : Request) (f : Fresh) (s s' : Safe) (file : Option Env)
      → promise t r f s ≡ some s'
      → Kept t w s file
      → Leaves t w (run t s.ident r f file) s'
  unfolding run promise
  run-Leaves (put_in name value consumer by) f s s' file e h =
      elim (Bool-cases (matches_name name && plain value)) [
        | inl good ↦ rw (← some-injective (rw good at e)) (
            run-put t w name value consumer by f s file (ground (arith, good))
              (ground (arith, good)) h)
        | inr bad ↦ absurd (ground (arith, e, bad))
      ]
  run-Leaves (share name member when) f s s' file e h = elim (Option-cases (get name s.secrets)) [
    | inl nothing ↦ absurd (ground (arith, e, nothing))
    | inr (x, found) ↦
        rw (← some-injective (rw (found, promise) at e))
          (run-share t w name member when f s file x found h)
  ]
  run-Leaves (unshare name member) f s s' file e h = elim (Option-cases (get name s.secrets)) [
    | inl nothing ↦ absurd (ground (arith, e, nothing))
    | inr (x, found) ↦ unpaired t w _ s' (elim (Bool-cases (has member x.shared)) [
      | inl there ↦
          rw (← some-injective (rw there at (rw (found, promise) at e)))
            (rw there at (run-unshare t w name member f s file x found h))
      | inr absent ↦
          rw (← some-injective (rw absent at (rw (found, promise) at e)))
            (rw absent at (run-unshare t w name member f s file x found h))
    ])
  ]
  run-Leaves (forget name) f s s' file e h =
      unpaired t w _ s' (elim (Bool-cases (has name s.secrets)) [
        | inl there ↦
            rw (← some-injective (rw (there, promise) at e))
              (rw there at (run-forget t w name f s file h))
        | inr absent ↦
            rw (← some-injective (rw (absent, promise) at e))
              (rw absent at (run-forget t w name f s file h))
      ])
  run-Leaves (move j typed) f s s' file e h =
      elim (Bool-cases (text_eq (norm_phrase typed) s.digits)) [
        | inl same ↦
            (let q : norm_phrase typed ≡ s.digits =
                (text_eq_iff (norm_phrase typed) s.digits).0 same in
              rw (← some-injective (rw (same, promise) at e))
                (rw q at (run-move t w j typed f s file (rw q h))))
        | inr other ↦ absurd (ground (arith, e, other))
      ]
  run-Leaves renew f s s' file e h =
      rw (← some-injective e) (unpaired t w _ _ (run-renew t w f s file h))

  promise-ident :
      (r : Request) (f : Fresh) (s s' : Safe)
      → promise t r f s ≡ some s'
      → s'.ident ≡ ident_after s.ident r
  unfolding promise
  promise-ident (put_in name value consumer by) f s s' e = ground (arith, e)
  promise-ident (share name member when) f s s' e = ground (arith, e)
  promise-ident (unshare name member) f s s' e = ground (arith, e)
  promise-ident (forget name) f s s' e = ground (arith, e)
  promise-ident (move j typed) f s s' e = ground (arith, e)
  promise-ident renew f s s' e = sym (ap (λ x. x.ident) (some-injective e))

  -- Requests that the dict grants one after the other all return, on a file that holds the dict, and
  -- the file that they leave holds what the dict has become.
  pub run_all-Leaves :
      (rs : List (Request × Fresh)) (s s' : Safe) (file : Option Env)
      → promise_all t rs s ≡ some s'
      → Kept t w s file
      → Leaves t w (run_all t s.ident rs file) s'
  unfolding run_all promise_all LeavesIn
  run_all-Leaves [] s s' file e h = (file, refl, rw (← some-injective e) h)
  run_all-Leaves ((r, f) ∷ rs) s s' file e h = elim (Option-cases (promise t r f s)) [
    | inl refused ↦ absurd (ground (arith, e, refused))
    | inr (s1, granted) ↦
        (let (file1, first, h1) = run-Leaves r f s s1 file granted h in
          let rest = run_all-Leaves rs s1 s' file1 (rw (granted, promise_all) at e) h1 in
          rw (first, sym (promise-ident r f s s1 granted)) rest)
  ]

  -- What `get` gives for a value in the dict.
  abbrev pub fetched : Option Secret → Outcome Value
  fetched none = err no_secret
  fetched (some x) = ok (if x.raw then bytes (t.unb64 x.v) else text x.v)

  -- `get` gives what the dict has under the name, and raises where it has nothing.
  pub fetch-Holds :
      (name : Text) (s : Safe) (file : Option Env)
      → Kept t w s file
      → fetch t s.ident name file ≡ fetched (get name s.secrets)
  unfolding fetch
  fetch-Holds name s file h = rw (load-Holds t w h) (by_entry (get name s.secrets))
    where
      by_entry :
          (o : Option Secret)
          → ◌≡◌ {A = Outcome Value}
              (elim o [
                | none ↦ err no_secret
                | some x ↦ ok (if x.raw then bytes (t.unb64 x.v) else text x.v)
              ])
              (fetched o)
      by_entry none = refl
      by_entry (some x) = refl

  -- `init` on no file, or under `force`, leaves an empty vault that this hardware opens, and so does
  -- the phrase that it returns.
  pub init-Leaves :
      (i : Ident) (force : Bool) (f : Fresh) (file : Option Env)
      → exists file && not force ≡ false
      → LeavesIn t w
          (first_of t w)
          (init t i force f file)
          (record { ident = i; digits = norm_phrase (new_phrase f.token); secrets = [] })
  unfolding init LeavesIn
  init-Leaves i force f file free =
      let phrase = new_phrase f.token in
      let env : Env = record {
        version = 1;
        seed = f.seed;
        created = f.now;
        ident_hint = hint i;
        chassis = record { salt = f.chassis_salt; wrapped = [] };
        recovery = record { salt = f.recovery_salt; wrapped = [] };
        payload = [];
        updated = 0;
      } in
      let (c, sealed, opened) = open_blob-seal t w (chassis_keys t env i) f.first_salt f.key in
      let (r, sealed', opened') =
        open_blob-seal t w (phrase_keys t env phrase) f.second_salt f.key in
      let env' : Env = record env {
        chassis = record { salt = f.chassis_salt; wrapped = t.b64 c };
        recovery = record { salt = f.recovery_salt; wrapped = t.b64 r };
      } in
      let o : Opens t w i (norm_phrase phrase) f.key env' = record {
        version = refl;
        by_chassis = rw (w.unb64-b64 c) opened;
        by_phrase = rw (w.unb64-b64 r) opened';
      } in
      rw free (
        after t w _ (seal t (chassis_keys t env i) f.first_salt f.key) _ _ sealed (
          after t w _ (seal t (phrase_keys t env phrase) f.second_salt f.key) _ _ sealed'
            (paired t w phrase _ _ (store-Holds t w f.third_salt f.now [] o))))

  fetched_put :
      (name : Text) (value : Value) (consumer by : Text) (i : Ident) (now : ℕ) (d : Secrets)
      → fetched (get name (set name (record_of t i name value consumer by now d) d)) ≡ ok value
  unfolding record_of
  fetched_put name (text x) consumer by i now d =
      rw (get-set name name (record_of t i name (text x) consumer by now d) d, text_eq_self name)
        refl
  fetched_put name (bytes x) consumer by i now d =
      rw (get-set name name (record_of t i name (bytes x) consumer by now d) d, text_eq_self name)
        (ap (λ v. ok (bytes v)) (w.unb64-b64 x))

  -- `set_` of an accepted name and a value without NUL returns, and `get` of the file that it leaves
  -- gives that value back, on any hardware that an `unlock` with the phrase has moved it to.
  pub fetch-put :
      (name : Text) (value : Value) (consumer by : Text) (f g : Fresh) (s : Safe)
      (file : Option Env) (j : Ident) (typed : Text)
      → Kept t w s file
      → matches_name name ≡ true
      → plain value ≡ true
      → text_eq (norm_phrase typed) s.digits ≡ true
      → (moved : Option Env) × ((put t s.ident name value consumer by f file >>= unlock t j typed g)
          ≡ ok moved)
        × (fetch t j name moved ≡ ok value)
  unfolding LeavesIn
  fetch-put name value consumer by f g s file j typed h named plain_value phrase =
      let (file1, e1, h1) = run-put t w name value consumer by f s file named plain_value h in
      let d = set name (record_of t s.ident name value consumer by f.now s.secrets) s.secrets in
      let q : norm_phrase typed ≡ s.digits = (text_eq_iff (norm_phrase typed) s.digits).0 phrase in
      let (file2, e2, h2) = run-move t w j typed g (record s { secrets = d }) file1 (rw q h1) in
      (
        file2,
        rw e1 e2,
        fetch-Holds name (record { ident = j; digits = norm_phrase typed; secrets = d }) file2 h2
            ∙ fetched_put name value consumer by s.ident f.now s.secrets,
      )
