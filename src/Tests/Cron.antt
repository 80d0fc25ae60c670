-- ===== src/Tests/Cron.antt =====
-- cronspec.py on concrete expressions and moments.
use pipe_os.Prelude.{
  ◌≡◌, ◌≤◌, ◌<◌, join, split, inr, refl, true, false, [], ◌∷◌, Option, none, some, All, codes,
  arith,
}
use pipe_os.Prelude.Fallible.{ok}
use pipe_os.Prelude.Sets.{mem, discard, sorted}
use pipe_os.Cron.Calendar.{Moment, stamp, next_minute, month_of, day_of_month, weekday}
use pipe_os.Cron.Field.{is_number, decimal, field, range}
use pipe_os.Cron.Field.Bounds.{Within, field-Within}
use pipe_os.Cron.Field.PastEnd.{step_element, field-past_end}
use pipe_os.Cron.Spec.{Spec, is_manual, parse, matches}
use pipe_os.Cron.NextRun.{at, first_of_day, next_run}
use pipe_os.Cron.NextRun.First.{next_run-matches, next_run-first, next_run-total}
use pipe_os.Cron.NextRun.Run.{IsRunnable}

-- `30 7 * * mon`
abbrev mondays : Spec
mondays = record {
  text = codes "30 7 * * mon";
  minute = 30 ∷ [];
  hour = 7 ∷ [];
  day = range 1 31 1;
  month = range 1 12 1;
  weekday = 1 ∷ [];
  day_star = true;
  weekday_star = false;
}

-- `75/5 * * * *`
abbrev no_minute : Spec
no_minute = record {
  text = codes "75/5 * * * *";
  minute = [];
  hour = range 0 23 1;
  day = range 1 31 1;
  month = range 1 12 1;
  weekday = 0 ∷ range 0 6 1;
  day_star = true;
  weekday_star = true;
}

parse-mondays : parse (some (codes "  30 7 * * MON ")) ≡ ok mondays
unfolding parse range join field mem discard
parse-mondays = refl

parse-no_minute : parse (some (codes "75/5 * * * *")) ≡ ok no_minute
unfolding parse range join field mem discard
parse-no_minute = refl

mondays-IsRunnable : IsRunnable mondays
mondays-IsRunnable = record { hours = (omega arith, tt); minutes = (omega arith, tt) }

-- Wednesday, 26 November 2025, 03:14, and the Monday behind it
abbrev wednesday : Moment
wednesday = at 739581 3 14

abbrev monday : Moment
monday = at 739586 7 30

next_monday : next_run mondays wednesday 366 ≡ ok (some monday)
unfolding next_run range is_manual stamp next_minute first_of_day sorted matches mem month_of
    day_of_month weekday
next_monday = refl

no_monday : next_run mondays wednesday 2 ≡ ok none
unfolding next_run range is_manual stamp next_minute first_of_day sorted matches mem month_of
    day_of_month weekday
no_monday = refl

hours_field : field (codes "8-18/5,3") 0 23 [] ≡ ok (8 ∷ 13 ∷ 18 ∷ 3 ∷ [])
unfolding field split
hours_field = refl

field-Within_example : All (Within 0 23) (8 ∷ 13 ∷ 18 ∷ 3 ∷ [])
field-Within_example = field-Within (codes "8-18/5,3") 0 23 [] (8 ∷ 13 ∷ 18 ∷ 3 ∷ []) hours_field

field-past_end_example : field (step_element (codes "75") (codes "5")) 0 59 [] ≡ ok []
unfolding is_number decimal
field-past_end_example =
    field-past_end (codes "75") (codes "5") 0 59 refl refl (omega arith) (omega arith) (omega arith)

next_run-matches_example : (matches mondays monday ≡ true) × (stamp wednesday < stamp monday)
next_run-matches_example =
    next_run-matches mondays wednesday monday 366 (omega arith, omega arith) mondays-IsRunnable
      next_monday

next_run-first_example : stamp monday ≤ stamp (at 739593 7 30)
next_run-first_example =
    next_run-first mondays wednesday monday (at 739593 7 30) 366 (omega arith, omega arith)
      mondays-IsRunnable next_monday
      (unfold matches range is_manual mem month_of day_of_month weekday in refl)
      (unfold stamp in omega arith)

next_run-total_example : (x : Option Moment) × (next_run mondays wednesday 366 ≡ ok x)
next_run-total_example =
    next_run-total mondays wednesday 366 (omega arith, omega arith) mondays-IsRunnable
      (inr ((λ e. cc), (λ e. cc)))
