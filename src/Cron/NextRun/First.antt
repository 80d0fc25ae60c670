-- ===== src/Cron/NextRun/First.antt =====
-- `next_run` of cronspec.py returns the first minute that matches.
use pipe_os.Prelude.{
  ℕ, suc, ◌+◌, ◌<◌, ◌≤◌, ◌≡◌, ◌≢◌, ◌⊎◌, inl, inr, refl, ◌∙◌, true, false, [], Option, none, some,
  Bool-cases, arith,
}
use pipe_os.Prelude.Fallible.{Fallible, ok, err}
use pipe_os.Cron.Calendar.{
  Moment, IsMoment, stamp, next_minute, stamp-next_minute, next_minute-IsMoment,
}
use pipe_os.Cron.Spec.{Spec, is_manual, matches}
use pipe_os.Cron.NextRun.{RunError, next_run}
use pipe_os.Cron.NextRun.Walk.{walk-Answer, walk-first, walk-none, walk-total}
use pipe_os.Cron.NextRun.Run.{
  IsRunnable, horizon, Candidate-after, midnight_not_past, next_run-manual, Run-nonempty, Run-ok,
  matches-manual,
}

-- The minute that `next_run` returns matches the expression and is after `after`. (`IsRunnable`
-- is what `parse` lets through.)
pub next_run-matches :
    (spec : Spec) (after m : Moment) (limit : ℕ)
    → IsMoment after
    → IsRunnable spec
    → next_run spec after limit ≡ ok (some m)
    → (matches spec m ≡ true) × (stamp after < stamp m)
next_run-matches spec after m limit v r e = elim (Bool-cases (is_manual spec)) [
  | inl manual ↦ absurd (ground (arith, next_run-manual spec after limit manual))
  | inr timed ↦
      let run = Run-ok spec after limit (some m) r timed e in
      let answer =
        walk-Answer spec (next_minute after) (horizon after limit) run.h0 run.m0 run.hs run.ms
          run.lists (suc (suc limit)) (next_minute after).day m run.walked in
      (answer.fires, (let late = answer.late in omega (arith, stamp-next_minute after v)))
]

-- No minute after `after` that matches comes before the one that `next_run` returns.
pub next_run-first :
    (spec : Spec) (after m dt : Moment) (limit : ℕ)
    → IsMoment after
    → IsRunnable spec
    → next_run spec after limit ≡ ok (some m)
    → matches spec dt ≡ true
    → stamp after < stamp dt
    → stamp m ≤ stamp dt
next_run-first spec after m dt limit v r e fires later = elim (Bool-cases (is_manual spec)) [
  | inl manual ↦ absurd (ground (arith, next_run-manual spec after limit manual))
  | inr timed ↦
      let run = Run-ok spec after limit (some m) r timed e in
      walk-first spec (next_minute after) (horizon after limit) run.h0 run.m0 run.hs run.ms
        run.lists (suc (suc limit)) (next_minute after).day m dt run.walked
        (Candidate-after spec after dt v r fires later)
]

-- When `next_run` returns `None`, no minute after `after` matches on any day up to `limit` days
-- behind the day of the next minute.
pub next_run-none :
    (spec : Spec) (after dt : Moment) (limit : ℕ)
    → IsMoment after
    → IsRunnable spec
    → next_run spec after limit ≡ ok none
    → stamp after < stamp dt
    → dt.day ≤ (next_minute after).day + limit
    → matches spec dt ≡ false
next_run-none spec after dt limit v r e later near = elim (Bool-cases (is_manual spec)) [
  | inl manual ↦ matches-manual spec after limit dt manual
  | inr timed ↦ elim (Bool-cases (matches spec dt)) [
    | inr quiet ↦ quiet
    | inl fires ↦
        let run = Run-ok spec after limit none r timed e in
        let start = next_minute after in
        let past =
          walk-none spec start (horizon after limit) run.h0 run.m0 run.hs run.ms run.lists
            (suc (suc limit)) start.day dt run.walked
            (Candidate-after spec after dt v r fires later) in
        absurd (midnight_not_past (horizon after limit) dt.day near past)
  ]
]

returned :
    (x : Fallible RunError (Option Moment))
    → ((e : RunError) → x ≢ err e)
    → (y : Option Moment) × (x ≡ ok y)
returned (ok y) h = (y, refl)
returned (err e) h = absurd (h e refl)

-- `next_run` returns an answer for `manual` and for every expression with an hour and a minute:
-- it raises nothing, and the rounds of the model are enough.
pub next_run-total :
    (spec : Spec) (after : Moment) (limit : ℕ)
    → IsMoment after
    → IsRunnable spec
    → (is_manual spec ≡ true) ⊎ ((spec.hour ≢ []) × (spec.minute ≢ []))
    → (x : Option Moment) × (next_run spec after limit ≡ ok x)
next_run-total spec after limit v r w = elim (Bool-cases (is_manual spec)) [
  | inl manual ↦ (none, next_run-manual spec after limit manual)
  | inr timed ↦
      let some_time : (spec.hour ≢ []) × (spec.minute ≢ []) = ground (arith, w) in
      let run = Run-nonempty spec after limit r timed some_time.0 some_time.1 in
      returned (next_run spec after limit) λ e stuck.
        walk-total spec (next_minute after) (horizon after limit) run.h0 run.m0 run.hs run.ms
          run.lists (suc (suc limit)) (next_minute after).day e (next_minute-IsMoment after v)
          (omega arith) (omega arith) (run.walked ∙ stuck)
]
