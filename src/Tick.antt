-- ===== src/Tick.antt =====
-- schedtick.py: the decision of one tick. `none` for a job's `cron` stands for a value that is no
-- string; a state file that is absent or unreadable is an empty dict. A minute's key is the number
-- of its minute. `starts` says whether the shell of the jobs could be started.
pub mod Due
pub mod Once
pub mod Capped
use pipe_os.Prelude.{
  ℕ, Bool, true, false, not, ◌||◌, Option, none, some, List, [], ◌∷◌, ◌++◌, map, ◌==◌,
  if◌then◌else◌, Text, text_eq, is_empty,
}
use pipe_os.Prelude.Fallible.{ok, err}
use pipe_os.Cron.Calendar.{Moment, stamp}
use pipe_os.Cron.Field.{CronError}
use pipe_os.Cron.Spec.{parse, matches}
use pipe_os.Ledger.Pause.{Doc, why_paused}

pub record Job : Type 0 where
  pub name : Text
  pub enabled : Bool
  pub cron : Option Text

-- `state["jobs"]`: the minute that each job last fired
abbrev pub Fired : Type 0
Fired = List (Text × ℕ)

pub data Event : Type 0 where
  bad_schedule : Text → CronError → Event
  skipped : Text → Text → Event
  fired : Text → ℕ → Event
  could_not_start : Text → Event

-- `read_jobs`: the jobs that have a name
unfoldable pub read_jobs : List Job → List Job
read_jobs [] = []
read_jobs (j ∷ jobs) = let rest = read_jobs jobs in if is_empty j.name then rest else j ∷ rest

-- `js.get("last_fired_minute") == key`
unfoldable pub fired_at : Text → ℕ → Fired → Bool
fired_at name key [] = false
fired_at name key ((n, k) ∷ state) = if text_eq n name then k == key else fired_at name key state

-- `js["last_fired_minute"] = key`
unfoldable pub set_fired : Text → ℕ → Fired → Fired
set_fired name key [] = (name, key) ∷ []
set_fired name key ((n, k) ∷ state) =
    if text_eq n name then (n, key) ∷ state else (n, k) ∷ set_fired name key state

-- What the loop of `main` carries.
pub record Pass : Type 0 where
  pub state : Fired
  pub fire : List Text
  pub log : List Event

-- The body of the loop over the jobs.
unfoldable pub consider : Moment → Job → Pass → Pass
unfolding fired_at set_fired
consider now j p = if not j.enabled then p else elim (parse j.cron) [
  | err e ↦ record p { log = p.log ++ bad_schedule j.name e ∷ [] }
  | ok spec ↦
      if not (matches spec now)
      then p
      else if fired_at j.name (stamp now) p.state
      then p
      else record p { state = set_fired j.name (stamp now) p.state; fire = p.fire ++ j.name ∷ [] }
]

unfoldable pub consider_all : Moment → List Job → Pass → Pass
unfolding consider
consider_all now [] p = p
consider_all now (j ∷ jobs) p = consider_all now jobs (consider now j p)

-- The loop over `fire`: the jobs that run, and what is logged of the others.
unfoldable pub gate : Text → Doc → List Text → List Text × List Event
gate marker doc [] = ([], [])
gate marker doc (name ∷ fire) =
    let (run, log) = gate marker doc fire in
    let why = why_paused marker doc name in
    if is_empty why then (name ∷ run, log) else (run, skipped name why ∷ log)

-- The last loops: one line for each job of the shell.
abbrev pub outcome : Bool → ℕ → Text → Event
outcome true key name = fired name key
outcome starts key name = could_not_start name

pub record Tick : Type 0 where
  pub state : Fired
  pub run : List Text
  pub log : List Event

abbrev pub begin : Fired → Pass
begin state = record { state = state; fire = []; log = [] }

tick_jobs : Moment → Text → Doc → Bool → List Job → Fired → Tick
unfolding consider_all gate
tick_jobs now marker doc starts [] state = record { state = state; run = []; log = [] }
tick_jobs now marker doc starts (j ∷ jobs) state =
    let p = consider_all now (j ∷ jobs) (begin state) in
    let (run, log) = gate marker doc p.fire in
    record {
      state = p.state;
      run = run;
      log = p.log ++ (log ++ map (outcome starts (stamp now)) run);
    }

-- `main`
unfoldable pub tick : Moment → Text → Doc → Bool → List Job → Fired → Tick
unfolding read_jobs tick_jobs
tick now marker doc starts jobs state = tick_jobs now marker doc starts (read_jobs jobs) state
