-- ===== src/Cron/NextRun.antt =====
-- cronspec.py, `next_run`: the first minute after a moment at which an expression fires.
pub mod Day
pub mod OneDay
pub mod Walk
pub mod Run
pub mod First
use pipe_os.Prelude.{
  ℕ, zero, suc, ◌+◌, ◌%◌, Bool, true, false, ◌&&◌, ◌||◌, Option, none, some, List, [], ◌∷◌, leb,
  ◌==◌, if◌then◌else◌,
}
use pipe_os.Prelude.Fallible.{Fallible, ok, err}
use pipe_os.Prelude.Sets.{mem, sorted}
use pipe_os.Cron.Calendar.{Moment, month_of, day_of_month, weekday, stamp, next_minute}
use pipe_os.Cron.Spec.{Spec, is_manual, day_ok, matches}

-- `IndexError`, of `hours[0]` and `minutes[0]`; `out_of_rounds` is the model's own.
pub data RunError : Type 0 where
  index_error out_of_rounds : RunError

abbrev pub at : ℕ → ℕ → ℕ → Moment
at day hour minute = record { day = day; hour = hour; minute = minute }

-- the tests on the month and the day inside the loop
unfoldable pub day_fires : Spec → ℕ → Bool
day_fires spec day =
    if mem (month_of day) spec.month
    then (let wd = (weekday day + 1) % 7 in
        day_ok spec (mem (day_of_month day) spec.day) (mem wd spec.weekday))
    else false

-- the loop over the minutes of one hour
unfoldable pub first_minute : Moment → ℕ → ℕ → List ℕ → Option Moment
first_minute start day h [] = none
first_minute start day h (m ∷ ms) =
    let rest = first_minute start day h ms in
    if leb (stamp start) (stamp (at day h m)) then some (at day h m) else rest

-- the loop over the hours of one day
unfoldable pub first_hour : Moment → ℕ → List ℕ → List ℕ → Option Moment
unfolding first_minute
first_hour start day [] minutes = none
first_hour start day (h ∷ hs) minutes =
    let rest = first_hour start day hs minutes in
    elim (first_minute start day h minutes) [ some m ↦ some m | none ↦ rest ]

-- The body of the loop over the days, for `probe` at the first hour and minute.
unfoldable pub search_day : Spec → Moment → ℕ → ℕ → ℕ → List ℕ → List ℕ → Option Moment
unfolding day_fires first_hour
search_day spec start day h0 m0 hours minutes =
    if (matches spec (at day h0 m0) || day == start.day) && day_fires spec day
    then first_hour start day hours minutes
    else none

unfoldable pub first_of_day :
    Spec → Moment → ℕ → List ℕ → List ℕ → Fallible RunError (Option Moment)
unfolding search_day
first_of_day spec start day [] minutes = err index_error
first_of_day spec start day (h0 ∷ hours) [] = err index_error
first_of_day spec start day (h0 ∷ hours) (m0 ∷ minutes) =
    ok (search_day spec start day h0 m0 (h0 ∷ hours) (m0 ∷ minutes))

-- `while day <= end`: a day stands for its midnight.
unfoldable pub walk_days :
    ℕ → Spec → Moment → Moment → ℕ → List ℕ → List ℕ → Fallible RunError (Option Moment)
walk_days zero spec start last day hours minutes = err out_of_rounds
walk_days (suc rounds) spec start last day hours minutes =
    let rest = walk_days rounds spec start last (suc day) hours minutes in
    if leb (stamp (at day 0 0)) (stamp last)
    then elim (first_of_day spec start day hours minutes) [
      | err e ↦ err e
      | ok (some m) ↦ ok (some m)
      | ok none ↦ rest
    ]
    else ok none

-- Each round is a day, and the last day is `limit_days` behind the first.
unfoldable pub next_run : Spec → Moment → ℕ → Fallible RunError (Option Moment)
unfolding walk_days
next_run spec after limit_days =
    let start = next_minute after in
    let last = record start { day = start.day + limit_days } in
    let rounds = suc (suc limit_days) in
    if is_manual spec
    then ok none
    else walk_days rounds spec start last start.day (sorted spec.hour) (sorted spec.minute)
