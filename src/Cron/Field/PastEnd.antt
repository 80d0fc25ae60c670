-- ===== src/Cron/Field/PastEnd.antt =====
-- A list element `p/s` of `_field` in cronspec.py whose start lies past the end of the range.
use pipe_os.Prelude.{
  ℕ, ◌<◌, ◌≤◌, ◌≡◌, ◌≢◌, refl, true, false, ◌&&◌, [], ◌∷◌, ◌++◌, none, some, ltb, leb, ◌==◌, arith,
  All-append, Text, text_eq, is_empty, Lacks, split_one, lt→ltb,
}
use pipe_os.Prelude.Fallible.{ok}
use pipe_os.Cron.Field.{
  lookup, is_number, all_digits, decimal, num, cut, range, span, stepped, element, elements, field,
}

Lacks-digits :
    (sep : ℕ) (t : Text)
    → (leb b'0' sep && leb sep b'9') ≡ false
    → all_digits t ≡ true
    → Lacks sep t
unfolding all_digits
Lacks-digits sep [] n h = tt
Lacks-digits sep (c ∷ t) n h = (ground arith, Lacks-digits sep t n (ground arith))

digits-number : (t : Text) → is_number t ≡ true → (all_digits t ≡ true) × (t ≢ [])
unfolding is_number
digits-number [] h = absurd (ground arith)
digits-number (c ∷ t) h = (ground arith, λ e. cc)

cut-Lacks : (sep : ℕ) (p s : Text) → Lacks sep p → cut sep (p ++ sep ∷ s) ≡ some (p, s)
unfolding cut
cut-Lacks sep [] s h = ground arith
cut-Lacks sep (c ∷ p) s h = ground (arith, cut-Lacks sep p s h.1)

cut-none : (sep : ℕ) (t : Text) → Lacks sep t → cut sep t ≡ none
unfolding cut
cut-none sep [] h = refl
cut-none sep (c ∷ t) h = ground (arith, cut-none sep t h.1)

number_not_star : (p : Text) → is_number p ≡ true → text_eq p (b'*' ∷ []) ≡ false
unfolding is_number all_digits
number_not_star [] h = refl
number_not_star (c ∷ p) h = ground arith

num-number : (p : Text) → is_number p ≡ true → num [] p ≡ ok (decimal p)
unfolding num lookup
num-number p h = rw h

-- The element `p/s` in a field without names.
abbrev pub step_element : Text → Text → Text
step_element p s = p ++ b'/' ∷ s

module _ (p s : Text) (hp : is_number p ≡ true) (hs : is_number s ≡ true)
    (many : 1 < decimal s) where
  stepped-step_element : stepped (step_element p s) ≡ ok (p, decimal s)
  unfolding stepped
  stepped-step_element =
      let parted = cut-Lacks b'/' p s (Lacks-digits b'/' p refl (digits-number p hp).0) in
      ground (arith, parted)

  span_to_end : (lo hi : ℕ) → span p (decimal s) lo hi [] ≡ ok (decimal p, hi)
  unfolding span
  span_to_end lo hi = rw (number_not_star p hp) (
      rw (cut-none b'-' p (Lacks-digits b'-' p refl (digits-number p hp).0))
        (rw (num-number p hp) (rw (lt→ltb 1 (decimal s) many))))

  filled : is_empty (step_element p s) ≡ false
  filled = go p
    where
      go : (q : Text) → is_empty (q ++ b'/' ∷ s) ≡ false
      go [] = refl
      go (c ∷ q) = refl

  element-past_end :
      (lo hi : ℕ) → lo ≤ hi → hi < decimal p → element (step_element p s) lo hi [] ≡ ok []
  unfolding element range
  element-past_end lo hi le past =
      let low : ltb (decimal p) lo ≡ false = ground arith in
      let high : ltb hi hi ≡ false = ground arith in
      let empty : ltb hi (decimal p) ≡ true = ground arith in
      rw filled (rw stepped-step_element (rw (span_to_end lo hi) (rw low (rw high (rw empty)))))

-- A field `p/s` that starts past the end of its range, with a step above one, is accepted with no
-- value at all: the test on the range compares the field's own end with itself.
pub field-past_end :
    (p s : Text) (lo hi : ℕ)
    → is_number p ≡ true
    → is_number s ≡ true
    → 1 < decimal s
    → lo ≤ hi
    → hi < decimal p
    → field (step_element p s) lo hi [] ≡ ok []
unfolding field elements
field-past_end p s lo hi hp hs many le past =
    let lacks =
      All-append (λ c. (c == b',') ≡ false) p (b'/' ∷ s)
        (Lacks-digits b',' p refl (digits-number p hp).0)
        (refl, Lacks-digits b',' s refl (digits-number s hs).0) in
    rw (split_one b',' (step_element p s) lacks)
      (rw (element-past_end p s hp hs many lo hi le past))
