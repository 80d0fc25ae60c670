-- ===== src/Tick/Capped.antt =====
-- schedtick.py behind ledger.py: the caps that `enforce_cap` checks hold back what a tick starts.
use pipe_os.Prelude.{ℕ, ◌≡◌, Bool, true, false, not, List, Text, is_empty, arith}
use pipe_os.Cron.Calendar.{Moment, stamp}
use pipe_os.Ledger.Cap.{World, Month}
use pipe_os.Ledger.Cap.Files.{before_of, enforce_cap}
use pipe_os.Ledger.Cap.Gate.{capped, enforce_cap-gate}
use pipe_os.Ledger.Cap.Files.Reads.{marker_text}
use pipe_os.Tick.{Job, Fired, fired_at, tick}
use pipe_os.Tick.Due.{name_in, any_due, tick-run}

-- A tick that reads the files of `enforce_cap` hands a due job that has not fired in this minute to
-- the shell exactly when no cap that covers it is set and reached.
pub tick-enforce_cap :
    (usd2 : ℕ → Text) (month : Month) (w : World) (now : Moment) (starts : Bool) (name : Text)
    (jobs : List Job) (state : Fired)
    → is_empty name ≡ false
    → any_due now name jobs ≡ true
    → fired_at name (stamp now) state ≡ false
    → (let after = (enforce_cap usd2 month w).1 in
        name_in name (tick now (marker_text after) (before_of after) starts jobs state).run)
      ≡ not (capped month name)
tick-enforce_cap usd2 month w now starts name jobs state h due_now fresh =
    let after = (enforce_cap usd2 month w).1 in
    ground (
      arith,
      tick-run now (marker_text after) (before_of after) starts name jobs state h,
      enforce_cap-gate usd2 month w name,
    )
