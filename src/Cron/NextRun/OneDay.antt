-- ===== src/Cron/NextRun/OneDay.antt =====
-- One round of the loop of `next_run` of cronspec.py: what the search through a day finds.
use mathlib.Core.Path.{subst}
use pipe_os.Prelude.{
  ℕ, ◌<◌, ◌≤◌, ◌≡◌, inl, inr, refl, sym, ◌∙◌, true, false, ◌&&◌, not, List, none, some, ◌==◌,
  if◌then◌else◌, Bool-cases, ==_iff, arith, All,
}
use pipe_os.Prelude.Sets.{mem, All-mem, Ascending}
use pipe_os.Cron.Calendar.{Moment, stamp}
use pipe_os.Cron.Spec.{Spec, is_manual, matches}
use pipe_os.Cron.NextRun.{at, day_fires, first_hour, search_day}
use pipe_os.Cron.NextRun.Day.{IsTime, first_hour-IsTime, first_hour-none, first_hour-first}

-- An expression matches at a minute exactly when its minute, its hour and its day do.
pub matches-day_fires :
    (spec : Spec) (dt : Moment)
    → matches spec dt ≡ (
        not (is_manual spec)
        && (mem dt.minute spec.minute && (mem dt.hour spec.hour && day_fires spec dt.day)))
unfolding matches day_fires
matches-day_fires spec dt = ground arith

-- What the loop over the days knows: the hours and minutes are those of the expression.
pub record Lists (spec : Spec) (hours minutes : List ℕ) : Type 0 where
  pub not_manual : is_manual spec ≡ false
  pub of_hour : (h : ℕ) → mem h hours ≡ mem h spec.hour
  pub of_minute : (m : ℕ) → mem m minutes ≡ mem m spec.minute
  pub hours_small : All (λ h. h < 24) hours
  pub hours_ascend : Ascending hours
  pub minutes_ascend : Ascending minutes
  pub minutes_small : All (λ m. m < 60) minutes

-- The probe at the first hour and minute lets a day through that can fire.
pub search_day-eq :
    (spec : Spec) (start : Moment) (day h0 m0 : ℕ) (hours minutes : List ℕ)
    → is_manual spec ≡ false
    → mem h0 spec.hour ≡ true
    → mem m0 spec.minute ≡ true
    → search_day spec start day h0 m0 hours minutes
      ≡ (if day_fires spec day then first_hour start day hours minutes else none)
unfolding search_day
search_day-eq spec start day h0 m0 hours minutes manual h m =
    ground (arith, matches-day_fires spec (at day h0 m0))

day_before : (m n : Moment) → m.hour < 24 → m.minute < 60 → m.day < n.day → stamp m ≤ stamp n
unfolding stamp
day_before m n h k lt = omega arith

-- `dt` could be the answer: it matches, not before `start` and not before the day.
pub record Candidate (spec : Spec) (start : Moment) (day : ℕ) (dt : Moment) : Type 0 where
  pub fires : matches spec dt ≡ true
  pub from_day : day ≤ dt.day
  pub late : stamp start ≤ stamp dt

module _ {spec : Spec} (start : Moment) {hours minutes : List ℕ}
    (l : Lists spec hours minutes) where
  -- A match is listed, and its day can fire.
  Candidate-listed :
      (dt : Moment)
      → matches spec dt ≡ true
      → (mem dt.hour hours ≡ true) × (mem dt.minute minutes ≡ true) × (day_fires spec dt.day ≡ true)
  Candidate-listed dt fires =
      let eq = sym (matches-day_fires spec dt) ∙ fires in
      (
        ground (arith, l.of_hour dt.hour, eq),
        ground (arith, l.of_minute dt.minute, eq),
        ground (arith, eq),
      )

  pub IsTime-matches :
      (day : ℕ) (m : Moment)
      → day_fires spec day ≡ true
      → IsTime start day hours minutes m
      → (matches spec m ≡ true) × (m.day ≡ day) × (m.hour < 24) × (m.minute < 60)
  IsTime-matches day m fires t =
      let e = t.at_time in
      let small_hour = All-mem (λ h. h < 24) hours t.hour l.hours_small t.hour_listed in
      let small_minute = All-mem (λ h. h < 60) minutes t.minute l.minutes_small t.minute_listed in
      (
        rw (matches-day_fires spec m) (
            rw e (
              ground (
                arith,
                l.not_manual,
                fires,
                l.of_hour t.hour,
                l.of_minute t.minute,
                t.hour_listed,
                t.minute_listed,
              ))),
        rw e refl,
        rw e small_hour,
        rw e small_minute,
      )

  pub search_day-none :
      (day h0 m0 : ℕ) (dt : Moment)
      → mem h0 spec.hour ≡ true
      → mem m0 spec.minute ≡ true
      → search_day spec start day h0 m0 hours minutes ≡ none
      → matches spec dt ≡ true
      → dt.day ≡ day
      → stamp dt < stamp start
  search_day-none day h0 m0 dt h m e fires same =
      let (hour, minute, today) = Candidate-listed dt fires in
      let open_day : day_fires spec day ≡ true = rw (← same) today in
      let nothing : first_hour start day hours minutes ≡ none =
        rw (search_day-eq spec start day h0 m0 hours minutes l.not_manual h m, open_day) at e in
      subst (λ d. stamp (at d dt.hour dt.minute) < stamp start) (sym same)
        (first_hour-none start day minutes hours dt.hour dt.minute nothing hour minute)

  pub search_day-some :
      (day h0 m0 : ℕ) (m : Moment)
      → mem h0 spec.hour ≡ true
      → mem m0 spec.minute ≡ true
      → search_day spec start day h0 m0 hours minutes ≡ some m
      → (day_fires spec day ≡ true) × (first_hour start day hours minutes ≡ some m)
  search_day-some day h0 m0 m h k e =
      let shape = sym (search_day-eq spec start day h0 m0 hours minutes l.not_manual h k) ∙ e in
      (ground (arith, shape), ground (arith, shape))

  pub search_day-first :
      (day h0 m0 : ℕ) (m dt : Moment)
      → mem h0 spec.hour ≡ true
      → mem m0 spec.minute ≡ true
      → search_day spec start day h0 m0 hours minutes ≡ some m
      → Candidate spec start day dt
      → stamp m ≤ stamp dt
  search_day-first day h0 m0 m dt h k e c =
      let (fires, found) = search_day-some day h0 m0 m h k e in
      let (good, today, small_hour, small_minute) =
        IsTime-matches day m fires (first_hour-IsTime start day minutes hours m found) in
      let (hour, minute, other) = Candidate-listed dt c.fires in
      elim (Bool-cases (dt.day == day)) [
        | inl same ↦
            let e' = (==_iff dt.day day).0 same in
            subst (λ d. stamp m ≤ stamp (at d dt.hour dt.minute)) (sym e')
              (first_hour-first start day minutes hours m dt.hour dt.minute l.hours_ascend
                l.minutes_ascend l.minutes_small found hour minute
                (subst (λ d. stamp start ≤ stamp (at d dt.hour dt.minute)) e' c.late))
        | inr later ↦
            (let far = c.from_day in day_before m dt small_hour small_minute (ground arith))
      ]
