-- ===== src/Tests/Tick.antt =====
-- schedtick.py's tick on concrete job lists.
use pipe_os.Prelude.{
  ◌≡◌, refl, true, false, not, List, [], ◌∷◌, some, none, codes, ◌&&◌, is_empty, join, split,
}
use pipe_os.Prelude.Sets.{mem}
use pipe_os.Cron.Calendar.{Moment, stamp, month_of, day_of_month, weekday}
use pipe_os.Cron.Field.{field, range}
use pipe_os.Cron.Spec.{is_manual, parse, matches}
use pipe_os.Cron.NextRun.{at}
use pipe_os.Ledger.Pause.{no_pause, why_paused}
use pipe_os.Ledger.Money.{show}
use pipe_os.Ledger.Cap.{World, Month}
use pipe_os.Ledger.Cap.Files.{before_of, enforce_cap}
use pipe_os.Ledger.Cap.Gate.{capped}
use pipe_os.Ledger.Cap.Files.Reads.{marker_text}
use pipe_os.Tick.{Job, Fired, fired_at, tick}
use pipe_os.Tick.Due.{name_in, due, any_due, tick-run}
use pipe_os.Tick.Once.{tick-tick}
use pipe_os.Tick.Capped.{tick-enforce_cap}

-- Monday, 1 December 2025, 07:30
abbrev monday : Moment
monday = at 739586 7 30

-- One job twice, and one that is switched off.
abbrev jobs : List Job
jobs =
    record { name = codes "digest"; enabled = true; cron = some (codes "30 7 * * mon") }
    ∷ record { name = codes "backup"; enabled = false; cron = some (codes "30 7 * * *") }
    ∷ record { name = codes "digest"; enabled = true; cron = some (codes "*/30 7-8 1 12 *") }
    ∷ []

abbrev last_week : Fired
last_week = (codes "digest", 1064993730) ∷ []

-- No file of an earlier pause.
abbrev fresh : World
fresh = record { markers = []; outbox = []; paused = none; paused_json = none }

abbrev december : Month
december = record {
  month = codes "2025-12";
  day = codes "2025-12-01";
  cap = 50;
  spent = 500000;
  cluster_cap = 0;
  cluster_spent = 0;
  agent_caps = [];
  agent_spent = λ name. 0;
}

digest-due : any_due monday (codes "digest") jobs ≡ true
unfolding any_due due parse field range join split matches is_manual mem month_of day_of_month
    weekday
digest-due = refl

tick-run_example : name_in (codes "digest") (tick monday [] no_pause true jobs last_week).run ≡ (
    any_due monday (codes "digest") jobs
    && (not (fired_at (codes "digest") (stamp monday) last_week)
        && is_empty (why_paused [] no_pause (codes "digest"))))
tick-run_example = tick-run monday [] no_pause true (codes "digest") jobs last_week refl

tick-tick_example :
    name_in
      (codes "digest")
      (tick monday [] no_pause true jobs
        (tick monday (codes "monthly cap") no_pause true jobs last_week).state).run
    ≡ false
tick-tick_example =
    tick-tick monday (codes "monthly cap") [] no_pause no_pause true true (codes "digest") jobs jobs
      last_week refl digest-due

tick-enforce_cap_example :
    name_in
      (codes "digest")
      (tick monday
        (marker_text (enforce_cap show december fresh).1)
        (before_of (enforce_cap show december fresh).1)
        true
        jobs
        last_week).run
    ≡ not (capped december (codes "digest"))
unfolding fired_at stamp
tick-enforce_cap_example =
    tick-enforce_cap show december fresh monday true (codes "digest") jobs last_week refl digest-due
      refl
