-- ===== src/Cron/Field/Bounds.antt =====
-- What `_field` of cronspec.py accepts: values in range, and the one element without a value.
use pipe_os.Prelude.{
  ℕ, zero, suc, ◌+◌, ◌-◌, ◌*◌, ◌/◌, ◌<◌, ◌≤◌, ◌≡◌, inl, inr, List, [], ◌∷◌, ◌++◌, ltb, Bool-cases,
  arith, All, All-append, Text, is_empty, split,
}
use pipe_os.Prelude.Fallible.{ok, bind-eq-ok}
use pipe_os.Cron.Field.Range.{steps_below}
use pipe_os.Cron.Field.{Names, steps_from, range, span, stepped, element, elements, field}

abbrev pub Within : ℕ → ℕ → ℕ → Type 0
Within lo hi v = (lo ≤ v) × (v ≤ hi)

All-steps_from :
    (count a step lo hi : ℕ)
    → lo ≤ a
    → ((k : ℕ) → k < count → a + k * step ≤ hi)
    → All (Within lo hi) (steps_from count a step)
unfolding steps_from
All-steps_from zero a step lo hi l h = tt
All-steps_from (suc count) a step lo hi l h = (
  (l, omega (arith, h 0 (omega arith))),
  All-steps_from count (a + step) step lo hi (omega arith)
      (λ k few. omega (arith, h (suc k) (omega arith))),
)

All-range : (a b step lo hi : ℕ) → lo ≤ a → b ≤ hi → All (Within lo hi) (range a b step)
unfolding range
All-range a b step lo hi l h = elim (Bool-cases (ltb b a)) [
  | inl backwards ↦ rw backwards tt
  | inr onwards ↦ rw onwards (
      All-steps_from (suc ((b - a) / step)) a step lo hi l
        (λ k few. ground (arith, steps_below k (b - a) step few)))
]

-- What an accepted list element is made of.
record Accepted (part : Text) (lo hi : ℕ) (names : Names) (vals : List ℕ) : Type 0 where
  body : Text
  step : ℕ
  a : ℕ
  b : ℕ
  stepped_eq : stepped part ≡ ok (body, step)
  span_eq : span body step lo hi names ≡ ok (a, b)
  low : lo ≤ a
  high : b ≤ hi
  vals_eq : vals ≡ range a b step

element-Accepted :
    (part : Text) (lo hi : ℕ) (names : Names) (vals : List ℕ)
    → element part lo hi names ≡ ok vals
    → Accepted part lo hi names vals
unfolding element
element-Accepted part lo hi names vals e = elim (Bool-cases (is_empty part)) [
  | inl empty ↦ absurd (ground arith)
  | inr filled ↦
      let (head, head_eq, e') = bind-eq-ok (stepped part) _ (rw filled at e) in
      let (bounds, span_eq, e'') = bind-eq-ok (span head.0 head.1 lo hi names) _ e' in
      record {
        body = head.0;
        step = head.1;
        a = bounds.0;
        b = bounds.1;
        stepped_eq = head_eq;
        span_eq = span_eq;
        low = ground arith;
        high = ground arith;
        vals_eq = ground arith;
      }
]

element-Within :
    (part : Text) (lo hi : ℕ) (names : Names) (vals : List ℕ)
    → element part lo hi names ≡ ok vals
    → All (Within lo hi) vals
element-Within part lo hi names vals e =
    let acc = element-Accepted part lo hi names vals e in
    rw acc.vals_eq (All-range acc.a acc.b acc.step lo hi acc.low acc.high)

elements-Within :
    (parts : List Text) (lo hi : ℕ) (names : Names) (vals : List ℕ)
    → elements parts lo hi names ≡ ok vals
    → All (Within lo hi) vals
unfolding elements
elements-Within [] lo hi names vals e = rw (← (let f : [] ≡ vals = cc in f)) tt
elements-Within (part ∷ parts) lo hi names vals e =
    let (here, here_eq, e') = bind-eq-ok (element part lo hi names) _ e in
    let (rest, rest_eq, e'') = bind-eq-ok (elements parts lo hi names) _ e' in
    let joined : vals ≡ here ++ rest = cc in
    rw joined (
      All-append (Within lo hi) here rest (element-Within part lo hi names here here_eq)
        (elements-Within parts lo hi names rest rest_eq))

-- Every value that a field is accepted with lies in the field's range.
pub field-Within :
    (text : Text) (lo hi : ℕ) (names : Names) (vals : List ℕ)
    → field text lo hi names ≡ ok vals
    → All (Within lo hi) vals
unfolding field
field-Within text lo hi names vals e = elements-Within (split b',' text) lo hi names vals e
