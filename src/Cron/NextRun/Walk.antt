-- ===== src/Cron/NextRun/Walk.antt =====
-- The loop of `next_run` of cronspec.py over the days.
use pipe_os.Prelude.{
  ℕ, zero, suc, ◌+◌, ◌<◌, ◌≤◌, ◌≡◌, ◌≢◌, ◌⊎◌, inl, inr, sym, ◌∙◌, true, List, ◌∷◌, Option, none,
  some, Option-cases, leb, leb→le, ◌==◌, if◌then◌else◌, Bool-cases, ==_iff, arith,
}
use pipe_os.Prelude.Fallible.{Fallible, ok, err}
use pipe_os.Prelude.Sets.{mem}
use pipe_os.Cron.Calendar.{Moment, IsMoment, stamp}
use pipe_os.Cron.Spec.{Spec, matches}
use pipe_os.Cron.NextRun.{RunError, at, search_day, first_of_day, walk_days}
use pipe_os.Cron.NextRun.Day.{first_hour-IsTime}
use pipe_os.Cron.NextRun.OneDay.{
  Lists, Candidate, search_day-none, search_day-some, search_day-first, IsTime-matches,
}

midnight_order :
    (last : Moment) (day : ℕ) (dt : Moment)
    → day ≤ dt.day
    → stamp last < stamp (at day 0 0)
    → stamp last < stamp (at dt.day 0 0)
unfolding stamp
midnight_order last day dt le past = omega arith

midnight_le :
    (last : Moment) (day : ℕ) → IsMoment last → stamp (at day 0 0) ≤ stamp last → day ≤ last.day
unfolding stamp
midnight_le last day v le = omega arith

-- What `next_run` owes: a minute that matches, from `start` on, with no match between.
pub record Answer (spec : Spec) (start : Moment) (day : ℕ) (m : Moment) : Type 0 where
  pub fires : matches spec m ≡ true
  pub from_day : day ≤ m.day
  pub late : stamp start ≤ stamp m

module _ (spec : Spec) (start last : Moment) (h0 m0 : ℕ) (hs ms : List ℕ)
    (l : Lists spec (h0 ∷ hs) (m0 ∷ ms)) where
  abbrev pub walk : ℕ → ℕ → Fallible RunError (Option Moment)
  walk rounds day = walk_days rounds spec start last day (h0 ∷ hs) (m0 ∷ ms)

  abbrev pub search : ℕ → Option Moment
  search day = search_day spec start day h0 m0 (h0 ∷ hs) (m0 ∷ ms)

  head_hour : mem h0 spec.hour ≡ true
  unfolding mem
  head_hour = ground (arith, l.of_hour h0)

  head_minute : mem m0 spec.minute ≡ true
  unfolding mem
  head_minute = ground (arith, l.of_minute m0)

  walk-step :
      (rounds day : ℕ)
      → walk (suc rounds) day ≡ (
          if leb (stamp (at day 0 0)) (stamp last)
          then elim (search day) [ some m ↦ ok (some m) | none ↦ walk rounds (suc day) ]
          else ok none)
  unfolding walk_days first_of_day
  walk-step rounds day = ground arith

  -- What one round says: the day is past the last, or it has the answer, or it has no match.
  walk_cases :
      (rounds day : ℕ) (r : Fallible RunError (Option Moment))
      → walk (suc rounds) day ≡ r
      → ((stamp last < stamp (at day 0 0)) × (r ≡ ok none))
        ⊎ ((m : Moment) × (search day ≡ some m) × (r ≡ ok (some m)))
        ⊎ ((search day ≡ none) × (walk rounds (suc day) ≡ r) × (stamp (at day 0 0) ≤ stamp last))
  walk_cases rounds day r e =
      let step = sym (walk-step rounds day) ∙ e in
      elim (Bool-cases (leb (stamp (at day 0 0)) (stamp last))) [
        | inr past ↦ inl (ground arith, ground arith)
        | inl ahead ↦ elim (Option-cases (search day)) [
          | inl nothing ↦ inr (inr (nothing, rw (ahead, nothing) at step, leb→le _ _ ahead))
          | inr (m, found) ↦ inr (inl (m, found, sym (rw (ahead, found) at step)))
        ]
      ]

  pub walk-Answer :
      (rounds day : ℕ) (m : Moment) → walk rounds day ≡ ok (some m) → Answer spec start day m
  walk-Answer zero day m e = absurd (unfold walk_days in ground arith)
  walk-Answer (suc rounds) day m e = elim (walk_cases rounds day (ok (some m)) e) [
    | inl (past, done) ↦ absurd (ground arith)
    | inr (inl (n, found, same)) ↦
        let e' : search day ≡ some m = ground arith in
        let (fires, first) = search_day-some start l day h0 m0 m head_hour head_minute e' in
        let t = first_hour-IsTime start day (m0 ∷ ms) (h0 ∷ hs) m first in
        let (good, today, a, b) = IsTime-matches start l day m fires t in
        record { fires = good; from_day = omega arith; late = t.late }
    | inr (inr (nothing, rest, ahead)) ↦
        let later = walk-Answer rounds (suc day) m rest in
        record {
          fires = later.fires;
          from_day = (let far = later.from_day in omega arith);
          late = later.late;
        }
  ]

  next_day :
      (day : ℕ) (dt : Moment)
      → search day ≡ none
      → Candidate spec start day dt
      → Candidate spec start (suc day) dt
  next_day day dt nothing c = elim (Bool-cases (dt.day == day)) [
    | inl same ↦
        let early =
          search_day-none start l day h0 m0 dt head_hour head_minute nothing c.fires
            ((==_iff dt.day day).0 same) in
        absurd (let late = c.late in omega arith)
    | inr later ↦ record {
      fires = c.fires;
      from_day = (let far = c.from_day in ground arith);
      late = c.late;
    }
  ]

  pub walk-first :
      (rounds day : ℕ) (m dt : Moment)
      → walk rounds day ≡ ok (some m)
      → Candidate spec start day dt
      → stamp m ≤ stamp dt
  walk-first zero day m dt e c = absurd (unfold walk_days in ground arith)
  walk-first (suc rounds) day m dt e c = elim (walk_cases rounds day (ok (some m)) e) [
    | inl (past, done) ↦ absurd (ground arith)
    | inr (inl (n, found, same)) ↦
        let e' : search day ≡ some m = ground arith in
        search_day-first start l day h0 m0 m dt head_hour head_minute e' c
    | inr (inr (nothing, rest, ahead)) ↦
        walk-first rounds (suc day) m dt rest (next_day day dt nothing c)
  ]

  pub walk-none :
      (rounds day : ℕ) (dt : Moment)
      → walk rounds day ≡ ok none
      → Candidate spec start day dt
      → stamp last < stamp (at dt.day 0 0)
  walk-none zero day dt e c = absurd (unfold walk_days in ground arith)
  walk-none (suc rounds) day dt e c = elim (walk_cases rounds day (ok none) e) [
    | inl (past, done) ↦ midnight_order last day dt c.from_day past
    | inr (inl (n, found, same)) ↦ absurd (ground arith)
    | inr (inr (nothing, rest, ahead)) ↦
        walk-none rounds (suc day) dt rest (next_day day dt nothing c)
  ]

  pub walk-total :
      (rounds day : ℕ) (e : RunError)
      → IsMoment last
      → last.day + 1 < day + rounds
      → day ≤ last.day + 1
      → walk rounds day ≢ err e
  walk-total zero day e v room le = absurd (omega arith)
  walk-total (suc rounds) day e v room le = λ w. elim (walk_cases rounds day (err e) w) [
    | inl (past, done) ↦ ground arith
    | inr (inl (n, found, same)) ↦ ground arith
    | inr (inr (nothing, rest, ahead)) ↦
        walk-total rounds (suc day) e v (omega arith)
          (let le' = midnight_le last day v ahead in omega arith) rest
  ]
