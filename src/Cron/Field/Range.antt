-- ===== src/Cron/Field/Range.antt =====
-- `range(a, b + 1, step)`, as `_field` of cronspec.py uses it.
use pipe_os.Prelude.{
  ℕ, zero, suc, ◌+◌, ◌-◌, ◌*◌, ◌/◌, ◌<◌, ◌≤◌, ◌≡◌, ◌↔◌, inl, inr, true, false, ltb, ◌==◌,
  Bool-cases, ==_iff, arith,
}
use native.Mathlib.Nat.{mod-lt, div-add-mod}
use pipe_os.Prelude.Sets.{mem}
use pipe_os.Cron.Field.{steps_from, range}

Hits : ℕ → ℕ → ℕ → ℕ → Type 0
Hits count a step v = (k : ℕ) × (k < count) × (v ≡ a + k * step)

steps_from-Hits :
    (count a step v : ℕ) → mem v (steps_from count a step) ≡ true → Hits count a step v
unfolding mem steps_from Hits
steps_from-Hits zero a step v h = absurd (ground arith)
steps_from-Hits (suc count) a step v h = elim (Bool-cases (v == a)) [
  | inl first ↦ (0, omega arith, ground (arith, (==_iff v a).0 first))
  | inr later ↦
      let (k, few, e) = steps_from-Hits count (a + step) step v (ground arith) in
      (suc k, omega arith, omega arith)
]

Hits-steps_from :
    (count a step k : ℕ) → k < count → mem (a + k * step) (steps_from count a step) ≡ true
unfolding mem steps_from
Hits-steps_from zero a step k h = absurd (omega arith)
Hits-steps_from (suc count) a step zero h = ground arith
Hits-steps_from (suc count) a step (suc k) h =
    ground (arith, Hits-steps_from count (a + step) step k)

-- `k` steps fit exactly while `k` is at most the quotient.
steps_fit : (k n step : ℕ) → 0 < step → k ≤ n / step → k * step ≤ n
steps_fit k n step h le = grind (arith, div-add-mod n step)

-- Any step of the range stays at or below its end.
pub steps_below : (k n step : ℕ) → k < suc (n / step) → k * step ≤ n
steps_below k n zero h = omega arith
steps_below k n (suc s) h = steps_fit k n (suc s) (omega arith) (omega arith)

fits_steps : (k n step : ℕ) → 0 < step → k * step ≤ n → k ≤ n / step
fits_steps k n step h le = grind (arith, div-add-mod n step, mod-lt n h)

range-hits :
    (a b step v : ℕ)
    → 0 < step
    → mem v (range a b step) ≡ true
    → (k : ℕ) × (v ≡ a + k * step) × (v ≤ b)
unfolding range Hits
range-hits a b step v h m = elim (Bool-cases (ltb b a)) [
  | inl backwards ↦ absurd (unfold mem in ground arith)
  | inr onwards ↦
      let (k, few, e) = steps_from-Hits (suc ((b - a) / step)) a step v (rw onwards at m) in
      (k, e, ground (arith, steps_fit k (b - a) step h))
]

hits-range :
    (a b step k : ℕ) → 0 < step → a + k * step ≤ b → mem (a + k * step) (range a b step) ≡ true
unfolding range
hits-range a b step k h le =
    let onwards : ltb b a ≡ false = ground arith in
    rw onwards (
      Hits-steps_from (suc ((b - a) / step)) a step k
        (omega (arith, fits_steps k (b - a) step h (omega arith))))

-- The values are those that are a number of steps above `a` and not above `b`.
pub mem-range :
    (a b step v : ℕ)
    → 0 < step
    → (mem v (range a b step) ≡ true) ↔ ((k : ℕ) × (v ≡ a + k * step) × (v ≤ b))
mem-range a b step v h = (
  range-hits a b step v h,
  λ w. let (k, e, le) = w in rw e (hits-range a b step k h (rw (← e) le)),
)
