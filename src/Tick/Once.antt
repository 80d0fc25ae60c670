-- ===== src/Tick/Once.antt =====
-- No job fires twice in one minute of schedtick.py.
use pipe_os.Prelude.{
  ℕ, suc, ◌+◌, ◌≤◌, ◌≡◌, Bool, true, false, ◌||◌, List, [], ◌∷◌, ◌++◌, if◌then◌else◌, Text, text_eq,
  is_empty, arith,
}
use pipe_os.Cron.Calendar.{Moment, stamp}
use pipe_os.Ledger.Pause.{Doc}
use pipe_os.Tick.{
  Job, Fired, read_jobs, fired_at, Pass, consider, consider_all, gate, begin, tick_jobs, tick,
}
use pipe_os.Tick.Due.{
  name_in, any_due, fired_at-set_fired, fired_at-same, consider_all-state, any_due-read_jobs,
  tick-run,
}

tick_jobs-state :
    (now : Moment) (marker : Text) (doc : Doc) (starts : Bool) (name : Text) (jobs : List Job)
    (state : Fired)
    → fired_at name (stamp now) (tick_jobs now marker doc starts jobs state).state
      ≡ (fired_at name (stamp now) state || any_due now name jobs)
unfolding tick_jobs any_due
tick_jobs-state now marker doc starts name [] state = ground arith
tick_jobs-state now marker doc starts name (j ∷ jobs) state =
    consider_all-state now name (j ∷ jobs) (begin state)

tick-state :
    (now : Moment) (marker : Text) (doc : Doc) (starts : Bool) (name : Text) (jobs : List Job)
    (state : Fired)
    → is_empty name ≡ false
    → fired_at name (stamp now) (tick now marker doc starts jobs state).state
      ≡ (fired_at name (stamp now) state || any_due now name jobs)
unfolding tick
tick-state now marker doc starts name jobs state h = ground (
  arith,
  tick_jobs-state now marker doc starts name (read_jobs jobs) state,
  any_due-read_jobs now name jobs h,
)

-- A job that was due in a tick is not handed to the shell by a second tick in the same minute, whatever
-- job list and pause files that one reads, and also when a pause kept the first from doing so.
pub tick-tick :
    (now : Moment) (m m' : Text) (d d' : Doc) (starts starts' : Bool) (name : Text)
    (jobs jobs' : List Job) (state : Fired)
    → is_empty name ≡ false
    → any_due now name jobs ≡ true
    → name_in name (tick now m' d' starts' jobs' (tick now m d starts jobs state).state).run ≡ false
tick-tick now m m' d d' starts starts' name jobs jobs' state h due_now = ground (
  arith,
  tick-state now m d starts name jobs state h,
  tick-run now m' d' starts' name jobs' (tick now m d starts jobs state).state h,
)

-- How often `name` stands in the list.
unfoldable pub times : Text → List Text → ℕ
times name [] = 0
times name (n ∷ names) = if text_eq n name then suc (times name names) else times name names

times-append : (name : Text) (a b : List Text) → times name (a ++ b) ≡ times name a + times name b
unfolding times
times-append name [] b = ground arith
times-append name (n ∷ a) b = ground (arith, times-append name a b)

-- The names that fire are noted in the state, each of them once.
abbrev Noted : Text → ℕ → Pass → Type 0
Noted name key p = times name p.fire ≤ (if fired_at name key p.state then 1 else 0)

consider-Noted :
    (now : Moment) (name : Text) (j : Job) (p : Pass)
    → Noted name (stamp now) p
    → Noted name (stamp now) (consider now j p)
unfolding consider times
consider-Noted now name j p h = ground (
  arith,
  h,
  fired_at-same j.name name (stamp now) p.state,
  fired_at-set_fired name j.name (stamp now) p.state,
  times-append name p.fire (j.name ∷ []),
)

consider_all-Noted :
    (now : Moment) (name : Text) (jobs : List Job) (p : Pass)
    → Noted name (stamp now) p
    → Noted name (stamp now) (consider_all now jobs p)
unfolding consider_all
consider_all-Noted now name [] p h = h
consider_all-Noted now name (j ∷ jobs) p h =
    consider_all-Noted now name jobs (consider now j p) (consider-Noted now name j p h)

gate-times :
    (marker : Text) (doc : Doc) (name : Text) (fire : List Text)
    → times name (gate marker doc fire).0 ≤ times name fire
unfolding gate times
gate-times marker doc name [] = omega arith
gate-times marker doc name (n ∷ fire) = ground (arith, gate-times marker doc name fire)

tick_jobs-times :
    (now : Moment) (marker : Text) (doc : Doc) (starts : Bool) (name : Text) (jobs : List Job)
    (state : Fired)
    → times name (tick_jobs now marker doc starts jobs state).run ≤ 1
unfolding tick_jobs times
tick_jobs-times now marker doc starts name [] state = omega arith
tick_jobs-times now marker doc starts name (j ∷ jobs) state =
    let p = consider_all now (j ∷ jobs) (begin state) in
    let noted : Noted name (stamp now) p =
      consider_all-Noted now name (j ∷ jobs) (begin state) (omega arith) in
    ground (arith, noted, gate-times marker doc name p.fire)

-- A tick starts no name twice, however often the job list has it.
pub tick-times :
    (now : Moment) (marker : Text) (doc : Doc) (starts : Bool) (name : Text) (jobs : List Job)
    (state : Fired)
    → times name (tick now marker doc starts jobs state).run ≤ 1
unfolding tick
tick-times now marker doc starts name jobs state =
    tick_jobs-times now marker doc starts name (read_jobs jobs) state
