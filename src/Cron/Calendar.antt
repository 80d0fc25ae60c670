-- ===== src/Cron/Calendar.antt =====
-- The part of Python's `datetime` that cronspec.py uses: a moment is a day, counted as
-- `date.toordinal` counts it, and an hour and a minute of that day. The proleptic Gregorian
-- calendar gives the month and the day of the month. Python's last year, 9999, is not modelled.
use pipe_os.Prelude.{
  ℕ, suc, ◌+◌, ◌-◌, ◌*◌, ◌/◌, ◌%◌, ◌<◌, ◌≡◌, refl, Bool, ◌&&◌, ◌||◌, not, List, [], ◌∷◌, ltb, ◌==◌,
  if◌then◌else◌, arith,
}

pub record Moment : Type 0 where
  pub day : ℕ
  pub hour : ℕ
  pub minute : ℕ

-- A month and a day of it, or the last day of a leap year.
month_lengths : Bool → List ℕ
month_lengths leap =
    31 ∷ (if leap then 29 else 28) ∷ 31 ∷ 30 ∷ 31 ∷ 30 ∷ 31 ∷ 31 ∷ 30 ∷ 31 ∷ 30 ∷ 31 ∷ []

-- The month that day `n` of the year (from 0) falls into, and its day (from 1).
walk_months : ℕ → List ℕ → ℕ → ℕ × ℕ
walk_months month [] n = (month, suc n)
walk_months month (size ∷ sizes) n =
    let rest = walk_months (suc month) sizes (n - size) in
    if ltb n size then (month, suc n) else rest

-- `date.fromordinal(n)`, its month and its day
month_and_day : ℕ → ℕ × ℕ
unfolding month_lengths walk_months
month_and_day ordinal =
    let n = ordinal - 1 in
    let n400 = n % 146097 in
    let n100 = n400 / 36524 in
    let in100 = n400 % 36524 in
    let n4 = in100 / 1461 in
    let in4 = in100 % 1461 in
    let n1 = in4 / 365 in
    if n1 == 4 || n100 == 4
    then (12, 31)
    else walk_months 1 (month_lengths (n1 == 3 && (not (n4 == 24) || n100 == 3))) (in4 % 365)

-- `dt.month`
unfoldable pub month_of : ℕ → ℕ
unfolding month_and_day
month_of day = (month_and_day day).0

-- `dt.day`
unfoldable pub day_of_month : ℕ → ℕ
unfolding month_and_day
day_of_month day = (month_and_day day).1

-- `dt.weekday()`, Monday being 0
unfoldable pub weekday : ℕ → ℕ
weekday day = (day + 6) % 7

-- The minutes since ordinal 0: `a <= b` compares moments as it compares these numbers.
unfoldable pub stamp : Moment → ℕ
stamp m = m.day * 1440 + (m.hour * 60 + m.minute)

abbrev pub IsMoment : Moment → Type 0
IsMoment m = (m.hour < 24) × (m.minute < 60)

-- `after.replace(second=0, microsecond=0) + timedelta(minutes=1)`
unfoldable pub next_minute : Moment → Moment
next_minute m =
    if ltb (m.minute + 1) 60
    then record m { minute = m.minute + 1 }
    else if ltb (m.hour + 1) 24
    then record m { hour = m.hour + 1; minute = 0 }
    else record { day = m.day + 1; hour = 0; minute = 0 }

pub stamp-next_minute : (m : Moment) → IsMoment m → stamp (next_minute m) ≡ stamp m + 1
unfolding stamp next_minute
stamp-next_minute m h = ground arith

pub next_minute-IsMoment : (m : Moment) → IsMoment m → IsMoment (next_minute m)
unfolding next_minute
next_minute-IsMoment m h = ground arith

known_days :
    (month_of 738945 ≡ 2)
    × (day_of_month 738945 ≡ 29)
    × (weekday 739581 ≡ 2)
    × (month_of 739581 ≡ 11)
    × (day_of_month 739581 ≡ 26)
unfolding month_of day_of_month weekday
known_days = (refl, refl, refl, refl, refl)
