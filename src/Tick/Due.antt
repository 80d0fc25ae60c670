-- ===== src/Tick/Due.antt =====
-- Which jobs a tick of schedtick.py starts.
use pipe_os.Prelude.{
  ℕ, ◌≡◌, refl, Bool, true, false, not, ◌&&◌, ◌||◌, inl, inr, List, [], ◌∷◌, ◌++◌, Bool-cases, Text,
  text_eq, text_eq_iff, text_eq_self, is_empty, arith,
}
use pipe_os.Prelude.Fallible.{ok, err}
use pipe_os.Cron.Calendar.{Moment, stamp}
use pipe_os.Cron.Spec.{parse, matches}
use pipe_os.Ledger.Pause.{Doc, why_paused}
use pipe_os.Tick.{
  Job, Fired, read_jobs, fired_at, set_fired, Pass, consider, consider_all, gate, begin, tick_jobs,
  tick,
}

-- `name in names`
unfoldable pub name_in : Text → List Text → Bool
name_in name [] = false
name_in name (n ∷ names) = text_eq n name || name_in name names

-- The job is called `name`, is enabled, and has a schedule that is accepted and matches `now`.
unfoldable pub due : Moment → Text → Job → Bool
due now name j =
    text_eq j.name name
    && (j.enabled && elim (parse j.cron) [ err e ↦ false | ok spec ↦ matches spec now ])

unfoldable pub any_due : Moment → Text → List Job → Bool
any_due now name [] = false
any_due now name (j ∷ jobs) = due now name j || any_due now name jobs

name_in-append :
    (name : Text) (a b : List Text) → name_in name (a ++ b) ≡ (name_in name a || name_in name b)
unfolding name_in
name_in-append name [] b = refl
name_in-append name (n ∷ a) b = ground (arith, name_in-append name a b)

pub fired_at-set_fired :
    (name n : Text) (key : ℕ) (state : Fired)
    → fired_at name key (set_fired n key state) ≡ (text_eq n name || fired_at name key state)
unfolding fired_at set_fired
fired_at-set_fired name n key [] = ground arith
fired_at-set_fired name n key ((m, k) ∷ state) = ground (
  arith,
  fired_at-set_fired name n key state,
  text_eq_iff m n,
  text_eq_iff m name,
  text_eq_iff n name,
)

pub fired_at-same :
    (a b : Text) (key : ℕ) (state : Fired)
    → text_eq a b ≡ true
    → fired_at a key state ≡ fired_at b key state
fired_at-same a b key state e = rw ((text_eq_iff a b).0 e)

pub consider-state :
    (now : Moment) (name : Text) (j : Job) (p : Pass)
    → fired_at name (stamp now) (consider now j p).state
      ≡ (fired_at name (stamp now) p.state || due now name j)
unfolding consider due
consider-state now name j p = ground (
  arith,
  fired_at-set_fired name j.name (stamp now) p.state,
  fired_at-same j.name name (stamp now) p.state,
)

consider-fire :
    (now : Moment) (name : Text) (j : Job) (p : Pass)
    → name_in name (consider now j p).fire
      ≡ (name_in name p.fire || (due now name j && not (fired_at name (stamp now) p.state)))
unfolding consider due name_in
consider-fire now name j p =
    ground (
      arith,
      name_in-append name p.fire (j.name ∷ []),
      fired_at-same j.name name (stamp now) p.state,
    )

pub consider_all-state :
    (now : Moment) (name : Text) (jobs : List Job) (p : Pass)
    → fired_at name (stamp now) (consider_all now jobs p).state
      ≡ (fired_at name (stamp now) p.state || any_due now name jobs)
unfolding consider_all any_due
consider_all-state now name [] p = ground arith
consider_all-state now name (j ∷ jobs) p =
    ground (arith, consider_all-state now name jobs (consider now j p), consider-state now name j p)

pub consider_all-fire :
    (now : Moment) (name : Text) (jobs : List Job) (p : Pass)
    → name_in name (consider_all now jobs p).fire
      ≡ (name_in name p.fire || (any_due now name jobs && not (fired_at name (stamp now) p.state)))
unfolding consider_all any_due
consider_all-fire now name [] p = ground arith
consider_all-fire now name (j ∷ jobs) p = ground (
  arith,
  consider_all-fire now name jobs (consider now j p),
  consider-state now name j p,
  consider-fire now name j p,
)

gate-run :
    (marker : Text) (doc : Doc) (name : Text) (fire : List Text)
    → name_in name (gate marker doc fire).0
      ≡ (name_in name fire && is_empty (why_paused marker doc name))
unfolding gate name_in
gate-run marker doc name [] = refl
gate-run marker doc name (n ∷ fire) = elim (Bool-cases (text_eq n name)) [
  | inl same ↦
      let e = (text_eq_iff n name).0 same in
      rw e (ground (arith, gate-run marker doc name fire, text_eq_self name))
  | inr other ↦ ground (arith, gate-run marker doc name fire)
]

pub any_due-read_jobs :
    (now : Moment) (name : Text) (jobs : List Job)
    → is_empty name ≡ false
    → any_due now name (read_jobs jobs) ≡ any_due now name jobs
unfolding any_due read_jobs due
any_due-read_jobs now name [] h = refl
any_due-read_jobs now name (j ∷ jobs) h = elim (Bool-cases (text_eq j.name name)) [
  | inl same ↦
      let e = (text_eq_iff j.name name).0 same in
      rw e (ground (arith, any_due-read_jobs now name jobs h, text_eq_self name))
  | inr other ↦ ground (arith, any_due-read_jobs now name jobs h)
]

tick_jobs-run :
    (now : Moment) (marker : Text) (doc : Doc) (starts : Bool) (name : Text) (jobs : List Job)
    (state : Fired)
    → name_in name (tick_jobs now marker doc starts jobs state).run ≡ (
        any_due now name jobs
        && (not (fired_at name (stamp now) state) && is_empty (why_paused marker doc name)))
unfolding tick_jobs any_due name_in
tick_jobs-run now marker doc starts name [] state = refl
tick_jobs-run now marker doc starts name (j ∷ jobs) state = ground (
  arith,
  gate-run marker doc name (consider_all now (j ∷ jobs) (begin state)).fire,
  consider_all-fire now name (j ∷ jobs) (begin state),
)

-- A tick hands a job, of a name that is not empty, to the shell exactly when some enabled job of that
-- name has an accepted schedule that matches the minute, the name has not fired in this minute before,
-- and `why_paused` gives no reason against it.
pub tick-run :
    (now : Moment) (marker : Text) (doc : Doc) (starts : Bool) (name : Text) (jobs : List Job)
    (state : Fired)
    → is_empty name ≡ false
    → name_in name (tick now marker doc starts jobs state).run ≡ (
        any_due now name jobs
        && (not (fired_at name (stamp now) state) && is_empty (why_paused marker doc name)))
unfolding tick
tick-run now marker doc starts name jobs state h = ground (
  arith,
  tick_jobs-run now marker doc starts name (read_jobs jobs) state,
  any_due-read_jobs now name jobs h,
)
