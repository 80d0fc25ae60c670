-- ===== src/Cron/Field.antt =====
-- cronspec.py, `_num` and `_field`: the values that one field of an expression allows.
pub mod Range
pub mod Bounds
pub mod PastEnd
use pipe_os.Prelude.{
  ℕ, zero, suc, ◌+◌, ◌-◌, ◌*◌, ◌/◌, Bool, true, false, ◌&&◌, ◌||◌, not, Option, none, some, List,
  [], ◌∷◌, ◌++◌, ltb, leb, ◌==◌, if◌then◌else◌, Text, text_eq, is_empty, split, codes,
}
use pipe_os.Prelude.Fallible.{Fallible, ok, err, ◌>>=◌}

-- The messages of `CronError`.
pub data CronError : Type 0 where
  not_a_string bad_length bad_character not_five_fields : CronError
  not_a_number empty_element bad_step runs_backwards out_of_range : CronError

abbrev pub Outcome : Type 0 → Type 0
Outcome = Fallible CronError

-- `_MONTHS`, `_DAYS` or `{}`
abbrev pub Names : Type 0
Names = List (Text × ℕ)

unfoldable pub lookup : Text → Names → Option ℕ
lookup tok [] = none
lookup tok ((name, n) ∷ names) = if text_eq tok name then some n else lookup tok names

abbrev is_digit : ℕ → Bool
is_digit c = leb b'0' c && leb c b'9'

all_digits : Text → Bool
all_digits [] = true
all_digits (c ∷ s) = is_digit c && all_digits s

-- `tok.isdigit()`, for a text that passed the test on characters in `parse`
unfoldable pub is_number : Text → Bool
unfolding all_digits
is_number tok = not (is_empty tok) && all_digits tok

digits_from : ℕ → Text → ℕ
digits_from n [] = n
digits_from n (c ∷ s) = digits_from (n * 10 + (c - b'0')) s

-- `int(tok)` of digits
unfoldable pub decimal : Text → ℕ
unfolding digits_from
decimal = digits_from 0

unfoldable pub num : Names → Text → Outcome ℕ
unfolding lookup is_number decimal
num names tok = elim (lookup tok names) [
  | some n ↦ ok n
  | none ↦ if is_number tok then ok (decimal tok) else err not_a_number
]

-- `text.split(sep, 1)` where `sep` occurs; `none` where it does not
unfoldable pub cut : ℕ → Text → Option (Text × Text)
cut sep [] = none
cut sep (c ∷ s) =
    let rest : Option (Text × Text) = elim (cut sep s) [
      | none ↦ none
      | some (a, b) ↦ some (c ∷ a, b)
    ] in
    if c == sep then some ([], s) else rest

-- `count` numbers from `a` in steps
unfoldable pub steps_from : ℕ → ℕ → ℕ → List ℕ
steps_from zero a step = []
steps_from (suc count) a step = a ∷ steps_from count (a + step) step

-- `range(a, b + 1, step)` for a step above zero
unfoldable pub range : ℕ → ℕ → ℕ → List ℕ
unfolding steps_from
range a b step = if ltb b a then [] else steps_from (suc ((b - a) / step)) a step

-- A list element without its step: `*`, `x-y` or a single value.
unfoldable pub span : Text → ℕ → ℕ → ℕ → Names → Outcome (ℕ × ℕ)
unfolding num cut
span part step lo hi names =
    if text_eq part (codes "*") then ok (lo, hi) else elim (cut b'-' part) [
      | some (x, y) ↦ (do
        a ← num names x
        b ← num names y
        if ltb b a then err runs_backwards else ok (a, b))
      | none ↦ (do a ← num names part; ok (a, if ltb 1 step then hi else a))
    ]

-- The step of a list element, and what stands in front of it.
unfoldable pub stepped : Text → Outcome (Text × ℕ)
unfolding cut is_number decimal
stepped part = elim (cut b'/' part) [
  | none ↦ ok (part, 1)
  | some (p, s) ↦ if not (is_number s) || decimal s == 0 then err bad_step else ok (p, decimal s)
]

-- The body of the loop in `_field`: the values of one list element.
unfoldable pub element : Text → ℕ → ℕ → Names → Outcome (List ℕ)
element part lo hi names = if is_empty part then err empty_element else do
  head ← stepped part
  bounds ← span head.0 head.1 lo hi names
  if ltb bounds.0 lo || ltb hi bounds.1
      then err out_of_range
      else ok (range bounds.0 bounds.1 head.1)

elements : List Text → ℕ → ℕ → Names → Outcome (List ℕ)
elements [] lo hi names = ok []
elements (part ∷ parts) lo hi names = do
  vals ← element part lo hi names
  rest ← elements parts lo hi names
  ok (vals ++ rest)

unfoldable pub field : Text → ℕ → ℕ → Names → Outcome (List ℕ)
unfolding elements element stepped span range
field text lo hi names = elements (split b',' text) lo hi names
