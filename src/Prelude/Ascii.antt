-- ===== src/Prelude/Ascii.antt =====
-- Python's methods of `str`, for letters of ASCII: the lower and upper case of others is left out.
use Prim.Native.Nat.{ℕ, ◌+◌, ◌-◌}
use mathlib.Core.Path.{◌≡◌, refl}
use mathlib.Core.Bool.{Bool, true, false, ◌&&◌, ◌||◌}
use mathlib.Core.List.{List, [], ◌∷◌}
use native.Mathlib.Omega.{arith}
use pipe_os.Prelude.Tests.{◌==◌, ltb, leb, if◌then◌else◌}
use pipe_os.Prelude.Lists.{length, take, drop}
use pipe_os.Prelude.Strings.{Text, text_eq, text_eq_iff, is_empty}

-- What `str.split()` splits at, and `str.strip()` takes off.
unfoldable pub is_space : ℕ → Bool
is_space c =
    (leb 9 c && leb c 13)
    || (leb 28 c && leb c 32)
    || c == 0x85
    || c == 0xa0
    || c == 0x1680
    || (leb 0x2000 c && leb c 0x200a)
    || c == 0x2028
    || c == 0x2029
    || c == 0x202f
    || c == 0x205f
    || c == 0x3000

unfoldable pub to_lower : ℕ → ℕ
to_lower c = if leb b'A' c && leb c b'Z' then c + 32 else c

unfoldable pub to_upper : ℕ → ℕ
to_upper c = if leb b'a' c && leb c b'z' then c - 32 else c

-- `s.lower()`
unfoldable pub lower : Text → Text
unfolding to_lower
lower [] = []
lower (c ∷ s) = to_lower c ∷ lower s

-- `s.upper()`
unfoldable pub upper : Text → Text
unfolding to_upper
upper [] = []
upper (c ∷ s) = to_upper c ∷ upper s

lstrip : Text → Text
unfolding is_space
lstrip [] = []
lstrip (c ∷ s) = if is_space c then lstrip s else c ∷ s

rstrip : Text → Text
unfolding is_space
rstrip [] = []
rstrip (c ∷ s) = let rest = rstrip s in if is_space c && is_empty rest then [] else c ∷ rest

-- `s.strip()`
unfoldable pub strip_space : Text → Text
unfolding lstrip rstrip
strip_space s = rstrip (lstrip s)

-- `s.startswith(p)`
unfoldable pub starts_with : Text → Text → Bool
starts_with [] s = true
starts_with (c ∷ p) [] = false
starts_with (c ∷ p) (d ∷ s) = c == d && starts_with p s

-- `s.endswith(p)`
unfoldable pub ends_with : Text → Text → Bool
ends_with p s = leb (length p) (length s) && text_eq (drop (length s - length p) s) p

-- `s.removesuffix(p)`
unfoldable pub remove_suffix : Text → Text → Text
unfolding ends_with
remove_suffix p s = if ends_with p s then take (length s - length p) s else s

-- `p in s`
unfoldable pub contains : Text → Text → Bool
unfolding starts_with
contains p [] = is_empty p
contains p (c ∷ s) = starts_with p (c ∷ s) || contains p s

-- `c in s` for a character
unfoldable pub has_char : ℕ → Text → Bool
has_char c [] = false
has_char c (d ∷ s) = c == d || has_char c s

-- `s < t`
abbrev pub text_ltb : Text → Text → Bool
text_ltb s [] = false
text_ltb [] (d ∷ t) = true
text_ltb (c ∷ s) (d ∷ t) = ltb c d || (c == d && text_ltb s t)

pub text_ltb_irrefl : (s : Text) → text_ltb s s ≡ false
text_ltb_irrefl [] = refl
text_ltb_irrefl (c ∷ s) = ground (arith, text_ltb_irrefl s)

pub text_ltb_asym : (s t : Text) → text_ltb s t ≡ true → text_ltb t s ≡ false
text_ltb_asym s [] h = ground arith
text_ltb_asym [] (d ∷ t) h = refl
text_ltb_asym (c ∷ s) (d ∷ t) h = ground (arith, text_ltb_asym s t)

pub text_ltb_total : (s t : Text) → text_ltb s t ≡ false → text_ltb t s ≡ false → text_eq s t ≡ true
text_ltb_total [] [] h k = refl
text_ltb_total [] (d ∷ t) h k = ground arith
text_ltb_total (c ∷ s) [] h k = ground arith
text_ltb_total (c ∷ s) (d ∷ t) h k = ground (arith, text_ltb_total s t)

pub text_ltb_trans :
    (s t u : Text) → text_ltb s t ≡ true → text_ltb t u ≡ true → text_ltb s u ≡ true
text_ltb_trans [] [] u h k = ground arith
text_ltb_trans [] (d ∷ t) [] h k = ground arith
text_ltb_trans [] (d ∷ t) (e ∷ u) h k = refl
text_ltb_trans (c ∷ s) [] u h k = ground arith
text_ltb_trans (c ∷ s) (d ∷ t) [] h k = ground arith
text_ltb_trans (c ∷ s) (d ∷ t) (e ∷ u) h k = ground (arith, text_ltb_trans s t u)

-- `x in xs` for texts
unfoldable pub text_in : Text → List Text → Bool
text_in x [] = false
text_in x (y ∷ ys) = text_eq y x || text_in x ys

insert : Text → List Text → List Text
insert x [] = x ∷ []
insert x (y ∷ ys) =
    let rest = insert x ys in
    if text_ltb x y then x ∷ y ∷ ys else if text_eq y x then y ∷ ys else y ∷ rest

-- `sorted(set(xs))`: ascending, each text once
unfoldable pub sorted_texts : List Text → List Text
unfolding insert
sorted_texts [] = []
sorted_texts (x ∷ xs) = insert x (sorted_texts xs)

text_in-insert :
    (x y : Text) (ys : List Text) → text_in x (insert y ys) ≡ (text_eq y x || text_in x ys)
unfolding text_in insert
text_in-insert x y [] = refl
text_in-insert x y (z ∷ ys) = ground (arith, text_in-insert x y ys, same_text z y x)
  where
    same_text : (a b c : Text) → text_eq a b ≡ true → text_eq a c ≡ text_eq b c
    same_text a b c e = rw ((text_eq_iff a b).0 e)

pub text_in-sorted_texts : (x : Text) (xs : List Text) → text_in x (sorted_texts xs) ≡ text_in x xs
unfolding text_in sorted_texts
text_in-sorted_texts x [] = refl
text_in-sorted_texts x (y ∷ xs) =
    ground (arith, text_in-insert x y (sorted_texts xs), text_in-sorted_texts x xs)
