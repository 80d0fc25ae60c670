-- ===== src/Cron/NextRun/Run.antt =====
-- How `next_run` of cronspec.py enters its loop, and when that raises.
use mathlib.Core.Path.{subst}
use pipe_os.Prelude.{
  ℕ, suc, ◌+◌, ◌<◌, ◌≤◌, ◌≡◌, ◌≢◌, ◌⊎◌, inl, inr, refl, sym, ap, ◌∙◌, true, false, List, [], ◌∷◌,
  Option, none, arith, All,
}
use pipe_os.Prelude.Fallible.{Fallible, ok, err}
use pipe_os.Prelude.Sets.{sorted, mem-sorted, sorted-Ascending, All-sorted, All-mem, sorted-eq-cons}
use pipe_os.Cron.Calendar.{Moment, IsMoment, stamp, next_minute, stamp-next_minute}
use pipe_os.Cron.Spec.{Spec, is_manual, matches}
use pipe_os.Cron.NextRun.{RunError, index_error, at, first_of_day, walk_days, next_run}
use pipe_os.Cron.NextRun.OneDay.{Lists, Candidate, matches-day_fires}
use pipe_os.Cron.NextRun.Walk.{walk}

-- The hours and minutes that `parse` lets through.
pub record IsRunnable (spec : Spec) : Type 0 where
  pub hours : All (λ h. h < 24) spec.hour
  pub minutes : All (λ m. m < 60) spec.minute

Lists-sorted :
    (spec : Spec) (hours minutes : List ℕ)
    → IsRunnable spec
    → is_manual spec ≡ false
    → sorted spec.hour ≡ hours
    → sorted spec.minute ≡ minutes
    → Lists spec hours minutes
Lists-sorted spec hours minutes r manual h m = record {
  not_manual = manual;
  of_hour = λ x. rw (← h) (mem-sorted x spec.hour);
  of_minute = λ x. rw (← m) (mem-sorted x spec.minute);
  hours_small = rw (← h) (All-sorted (λ x. x < 24) spec.hour r.hours);
  hours_ascend = rw (← h) (sorted-Ascending spec.hour);
  minutes_ascend = rw (← m) (sorted-Ascending spec.minute);
  minutes_small = rw (← m) (All-sorted (λ x. x < 60) spec.minute r.minutes);
}

-- A match is at an hour below 24 and a minute below 60.
matches-IsMoment :
    (spec : Spec) (dt : Moment) → IsRunnable spec → matches spec dt ≡ true → IsMoment dt
matches-IsMoment spec dt r e =
    let eq = sym (matches-day_fires spec dt) ∙ e in
    (
      All-mem (λ x. x < 24) spec.hour dt.hour r.hours (ground (arith, eq)),
      All-mem (λ x. x < 60) spec.minute dt.minute r.minutes (ground (arith, eq)),
    )

stamp-le-day : (m n : Moment) → IsMoment n → stamp m ≤ stamp n → m.day ≤ n.day
unfolding stamp
stamp-le-day m n v le = omega arith

-- A match after `after` is one that the loop from the next minute on can meet.
pub Candidate-after :
    (spec : Spec) (after dt : Moment)
    → IsMoment after
    → IsRunnable spec
    → matches spec dt ≡ true
    → stamp after < stamp dt
    → Candidate spec (next_minute after) (next_minute after).day dt
Candidate-after spec after dt v r fires later =
    let late : stamp (next_minute after) ≤ stamp dt = omega (arith, stamp-next_minute after v) in
    record {
      fires = fires;
      from_day = stamp-le-day (next_minute after) dt (matches-IsMoment spec dt r fires) late;
      late = late;
    }

pub midnight_not_past :
    (last : Moment) (day : ℕ) → day ≤ last.day → ¬ (stamp last < stamp (at day 0 0))
unfolding stamp
midnight_not_past last day le past = omega arith

walk-empty :
    (spec : Spec) (start last : Moment) (day rounds : ℕ) (hs ms : List ℕ)
    → stamp (at day 0 0) ≤ stamp last
    → (hs ≡ []) ⊎ (ms ≡ [])
    → walk_days (suc rounds) spec start last day hs ms ≡ err index_error
unfolding walk_days first_of_day
walk-empty spec start last day rounds [] ms le w = ground arith
walk-empty spec start last day rounds (h ∷ hs) [] le w = ground arith
walk-empty spec start last day rounds (h ∷ hs) (m ∷ ms) le w = absurd (ground arith)

-- The last moment of the search.
abbrev pub horizon : Moment → ℕ → Moment
horizon after limit = record (next_minute after) { day = (next_minute after).day + limit }

midnight_le_horizon :
    (m : Moment) (limit : ℕ) → stamp (at m.day 0 0) ≤ stamp (record m { day = m.day + limit })
unfolding stamp
midnight_le_horizon m limit = omega arith

list_cases : (s : List ℕ) → (s ≡ []) ⊎ (s ≢ [])
list_cases [] = inl refl
list_cases (x ∷ s) = inr (λ e. cc)

sorted-nil : (s : List ℕ) → s ≡ [] → sorted s ≡ []
sorted-nil s e = rw e (unfold sorted in refl)

module _ (spec : Spec) (after : Moment) (limit : ℕ) where
  -- For an expression, other than `manual`, with no hour or no minute `next_run` raises
  -- `IndexError`, after any moment and for any limit.
  pub next_run-raises :
      is_manual spec ≡ false
      → (spec.hour ≡ []) ⊎ (spec.minute ≡ [])
      → next_run spec after limit ≡ err index_error
  unfolding next_run
  next_run-raises manual w = rw manual (
      walk-empty spec (next_minute after) (horizon after limit) (next_minute after).day (suc limit)
        (sorted spec.hour) (sorted spec.minute) (midnight_le_horizon (next_minute after) limit)
        (choose w))
    where
      choose :
          (spec.hour ≡ []) ⊎ (spec.minute ≡ [])
          → (sorted spec.hour ≡ []) ⊎ (sorted spec.minute ≡ [])
      choose (inl e) = inl (sorted-nil spec.hour e)
      choose (inr e) = inr (sorted-nil spec.minute e)

  abbrev days : List ℕ → List ℕ → Fallible RunError (Option Moment)
  days =
      walk_days (suc (suc limit)) spec (next_minute after) (horizon after limit)
        (next_minute after).day

  next_run-not_manual :
      is_manual spec ≡ false
      → next_run spec after limit ≡ days (sorted spec.hour) (sorted spec.minute)
  unfolding next_run
  next_run-not_manual manual = rw manual

  pub next_run-manual : is_manual spec ≡ true → next_run spec after limit ≡ ok none
  unfolding next_run
  next_run-manual manual = rw manual

  -- The loop that `next_run` runs.
  pub record Run (r : Fallible RunError (Option Moment)) : Type 0 where
    pub h0 : ℕ
    pub m0 : ℕ
    pub hs : List ℕ
    pub ms : List ℕ
    pub lists : Lists spec (h0 ∷ hs) (m0 ∷ ms)
    pub walked :
        walk spec
          (next_minute after)
          (horizon after limit)
          h0
          m0
          hs
          ms
          lists
          (suc (suc limit))
          (next_minute after).day
        ≡ r

  pub Run-nonempty :
      IsRunnable spec
      → is_manual spec ≡ false
      → spec.hour ≢ []
      → spec.minute ≢ []
      → Run (next_run spec after limit)
  Run-nonempty r manual h m =
      let (h0, hs, eh) = sorted-eq-cons spec.hour h in
      let (m0, ms, em) = sorted-eq-cons spec.minute m in
      record {
        h0 = h0;
        m0 = m0;
        hs = hs;
        ms = ms;
        lists = Lists-sorted spec (h0 ∷ hs) (m0 ∷ ms) r manual eh em;
        walked = sym (
            next_run-not_manual manual
            ∙ ap (λ t. days t (sorted spec.minute)) eh
            ∙ ap (λ t. days (h0 ∷ hs) t) em);
      }

  pub Run-ok :
      (x : Option Moment)
      → IsRunnable spec
      → is_manual spec ≡ false
      → next_run spec after limit ≡ ok x
      → Run (ok x)
  Run-ok x r manual e = elim (list_cases spec.hour) [
    | inl none_left ↦ absurd (ground (arith, next_run-raises manual (inl none_left)))
    | inr h ↦ elim (list_cases spec.minute) [
      | inl none_left ↦ absurd (ground (arith, next_run-raises manual (inr none_left)))
      | inr m ↦ subst Run e (Run-nonempty r manual h m)
    ]
  ]

  pub matches-manual : (dt : Moment) → is_manual spec ≡ true → matches spec dt ≡ false
  matches-manual dt manual = ground (arith, matches-day_fires spec dt)
