-- ===== src/Sched/Flags.antt =====
-- schedctl.py, `parse_flags` and `apply`.
pub mod Named
use pipe_os.Prelude.{
  ℕ, Bool, true, false, ◌&&◌, ◌||◌, not, Option, none, some, List, [], ◌∷◌, ◌++◌, leb, ltb, drop,
  if◌then◌else◌, length, Text, text_eq, is_empty, codes,
}
use pipe_os.Prelude.Fallible.{Fallible, ok, err, ◌>>=◌}
use pipe_os.Prelude.Dict.{Dict, get, set, has}
use pipe_os.Prelude.Ascii.{lower, strip_space, starts_with, text_in, has_char}
use pipe_os.Cron.Field.{is_number, decimal}
use pipe_os.Cron.Spec.{parse_for_job}
use pipe_os.Vault.Names.{line, parse_needs}
use pipe_os.Sched.{
  Job, Refused, no_prompt, prompt_too_long, outside_work, unknown_backend, not_installed, bad_cap,
  bad_needs, bad_session, unknown_flag, needs_value, bad_switch, bad_schedule,
}

abbrev pub Outcome : Type 0 → Type 0
Outcome = Fallible Refused

is_flag : Text → List Text → Bool
is_flag a allowed = starts_with (codes "--") a && text_in (drop 2 a) allowed

-- `parse_flags`, with the flags so far
unfoldable pub flags_from : List Text → Dict Text → List Text → Outcome (Dict Text)
unfolding is_flag
flags_from allowed out [] = ok out
flags_from allowed out (a ∷ []) =
    if is_flag a allowed then err (needs_value a) else err (unknown_flag a)
flags_from allowed out (a ∷ v ∷ argv) =
    let rest = flags_from allowed (set (drop 2 a) v out) argv in
    if is_flag a allowed then rest else err (unknown_flag a)

unfoldable pub parse_flags : List Text → List Text → Outcome (Dict Text)
unfolding flags_from
parse_flags argv allowed = flags_from allowed [] argv

abbrev or_blank : Option Text → Text
or_blank none = []
or_blank (some s) = s

-- The flag's value, where it is given.
abbrev pub given : {A : Type 0} → Option Text → A → (Text → A) → A
given none otherwise use_it = otherwise
given (some s) otherwise use_it = use_it s

unfoldable pub apply_cron : Dict Text → Bool → Job → Outcome Job
unfolding has get
apply_cron flags new job =
    if has (codes "cron") flags || new
    then elim (parse_for_job (get (codes "cron") flags) new) [
      | err e ↦ err (bad_schedule e)
      | ok spec ↦ ok (record job { cron = spec.text })
    ]
    else ok job

unfoldable pub apply_prompt : Dict Text → Bool → Job → Outcome Job
unfolding has get
apply_prompt flags new job =
    let prompt = or_blank (get (codes "prompt") flags) in
    if not (has (codes "prompt") flags || new)
    then ok job
    else if is_empty (strip_space prompt)
    then err no_prompt
    else if ltb 16384 (length prompt)
    then err prompt_too_long
    else ok (record job { prompt = strip_space prompt })

-- `realpath` resolves links, and `which` finds a program: neither is modelled.
module _ (realpath : Text → Text) (which : Text → Bool) where
  unfoldable pub apply_cwd : Dict Text → Job → Outcome Job
  unfolding get
  apply_cwd flags job = given (get (codes "cwd") flags) (ok job) λ s.
      let cwd = strip_space s in
      let real = realpath cwd in
      let root = realpath (codes "/data") in
      if is_empty cwd
      then ok (record job { cwd = [] })
      else if not (text_eq real root || starts_with (root ++ codes "/") real)
          || (has_char 10 cwd
              || has_char 13 cwd
              || has_char 0 cwd
              || has_char b'\'' cwd
              || has_char b'"' cwd)
      then err outside_work
      else ok (record job { cwd = real })

  unfoldable pub apply_backend : Dict Text → Job → Outcome Job
  unfolding get
  apply_backend flags job = given (get (codes "backend") flags) (ok job) λ s.
      let b = strip_space s in
      if not (text_in b (codes "claude" ∷ codes "hermes" ∷ []))
      then err unknown_backend
      else if not (which b)
      then err not_installed
      else ok (record job { backend = b })

unfoldable pub apply_cap : Dict Text → Job → Outcome Job
unfolding get
apply_cap flags job = given (get (codes "cap") flags) (ok job) λ s.
    let c = lower (strip_space s) in
    if text_in c (codes "none" ∷ codes "0" ∷ [] ∷ [])
    then ok (record job { cap_usd = none })
    else if not (is_number c) || not (leb 1 (decimal c) && leb (decimal c) 100000)
    then err bad_cap
    else ok (record job { cap_usd = some (decimal c) })

unfoldable pub apply_needs : Dict Text → Job → Outcome Job
unfolding get
apply_needs flags job = given (get (codes "needs") flags) (ok job) λ s.
    elim (parse_needs (line s)) [ none ↦ err bad_needs | some n ↦ ok (record job { needs = n }) ]

-- One of the two switches, set by `put`.
unfoldable pub apply_switch : Text → (Job → Bool → Job) → Dict Text → Job → Outcome Job
unfolding get
apply_switch key put flags job = given (get key flags) (ok job) λ s.
    let v = lower (strip_space s) in
    if not (
      text_in v
        (codes "on" ∷ codes "off" ∷ codes "true" ∷ codes "false" ∷ codes "1" ∷ codes "0" ∷ []))
    then err (bad_switch key)
    else ok (put job (text_in v (codes "on" ∷ codes "true" ∷ codes "1" ∷ [])))

unfoldable pub apply_session : Dict Text → Job → Outcome Job
unfolding get
apply_session flags job = given (get (codes "session") flags) (ok job) λ s.
    if text_in s (codes "fresh" ∷ codes "continue" ∷ [])
    then ok (record job { session = s })
    else err bad_session

module _ (realpath : Text → Text) (which : Text → Bool) where
  unfoldable pub apply : Job → Dict Text → Bool → Outcome Job
  apply job flags new =
      apply_cron flags new job
      >>= apply_prompt flags new
      >>= apply_cwd realpath which flags
      >>= apply_backend realpath which flags
      >>= apply_cap flags
      >>= apply_needs flags
      >>= apply_switch (codes "notify") (λ j b. record j { notify = b }) flags
      >>= apply_switch (codes "enabled") (λ j b. record j { enabled = some b }) flags
      >>= apply_session flags
