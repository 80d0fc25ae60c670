-- ===== src/Prelude/Sets.antt =====
-- Python's sets of numbers as lists, where only membership counts, and `sorted` of a set.
use Prim.Native.Nat.{ℕ, ◌<◌}
use mathlib.Core.Path.{◌≡◌, refl, sym, ◌∙◌, subst}
use mathlib.Core.Logic.{◌≢◌, inl, inr}
use mathlib.Core.Bool.{Bool, true, false, ◌&&◌, ◌||◌, not}
use mathlib.Core.List.{List, [], ◌∷◌, ◌++◌}
use native.Mathlib.Omega.{arith}
use pipe_os.Prelude.Tests.{◌==◌, ltb, if◌then◌else◌, Bool-cases, ==_iff}
use pipe_os.Prelude.Lists.{All}

-- `x in s`
unfoldable pub mem : ℕ → List ℕ → Bool
mem x [] = false
mem x (y ∷ s) = x == y || mem x s

-- `s.discard(x)`
unfoldable pub discard : ℕ → List ℕ → List ℕ
discard x [] = []
discard x (y ∷ s) = let rest = discard x s in if x == y then rest else y ∷ rest

insert : ℕ → List ℕ → List ℕ
insert x [] = x ∷ []
insert x (y ∷ s) = if ltb x y then x ∷ y ∷ s else if x == y then y ∷ s else y ∷ insert x s

-- `sorted(s)` of a set: ascending, each member once
unfoldable pub sorted : List ℕ → List ℕ
unfolding insert
sorted [] = []
sorted (x ∷ s) = insert x (sorted s)

pub mem-append : (x : ℕ) (s t : List ℕ) → mem x (s ++ t) ≡ (mem x s || mem x t)
unfolding mem
mem-append x [] t = refl
mem-append x (y ∷ s) t = ground (arith, mem-append x s t)

pub mem-discard : (x y : ℕ) (s : List ℕ) → mem y (discard x s) ≡ (not (x == y) && mem y s)
unfolding mem discard
mem-discard x y [] = ground arith
mem-discard x y (z ∷ s) = ground (arith, mem-discard x y s)

mem-insert : (x y : ℕ) (s : List ℕ) → mem y (insert x s) ≡ (y == x || mem y s)
unfolding mem insert
mem-insert x y [] = refl
mem-insert x y (z ∷ s) = ground (arith, mem-insert x y s)

pub mem-sorted : (y : ℕ) (s : List ℕ) → mem y (sorted s) ≡ mem y s
unfolding mem sorted
mem-sorted y [] = refl
mem-sorted y (x ∷ s) = ground (arith, mem-insert x y (sorted s), mem-sorted y s)

-- Each number is below all that follow it.
abbrev pub Ascending : List ℕ → Type 0
Ascending [] = Unit
Ascending (x ∷ s) = All (λ y. x < y) s × Ascending s

insert-All : (b x : ℕ) (s : List ℕ) → b < x → All (λ y. b < y) s → All (λ y. b < y) (insert x s)
unfolding insert
insert-All b x [] h k = (h, tt)
insert-All b x (y ∷ s) h k = ground (arith, insert-All b x s h k.1)

All-below : (x y : ℕ) (s : List ℕ) → x < y → All (λ z. y < z) s → All (λ z. x < z) s
All-below x y [] h k = tt
All-below x y (z ∷ s) h k = (omega arith, All-below x y s h k.1)

insert-Ascending : (x : ℕ) (s : List ℕ) → Ascending s → Ascending (insert x s)
unfolding insert
insert-Ascending x [] h = (tt, tt)
insert-Ascending x (y ∷ s) h =
    ground (arith, insert-All y x s, All-below x y s, insert-Ascending x s h.1)

pub sorted-Ascending : (s : List ℕ) → Ascending (sorted s)
unfolding sorted
sorted-Ascending [] = tt
sorted-Ascending (x ∷ s) = insert-Ascending x (sorted s) (sorted-Ascending s)

pub All-mem {κ} : (P : ℕ → Type κ) (s : List ℕ) (x : ℕ) → All P s → mem x s ≡ true → P x
unfolding mem
All-mem P [] x h m = absurd (ground arith)
All-mem P (y ∷ s) x h m = elim (Bool-cases (x == y)) [
  | inl same ↦ subst P (sym ((==_iff x y).0 same)) h.0
  | inr other ↦ All-mem P s x h.1 (ground arith)
]

pub All_of_mem {κ} : (P : ℕ → Type κ) (s : List ℕ) → ((x : ℕ) → mem x s ≡ true → P x) → All P s
unfolding mem
All_of_mem P [] h = tt
All_of_mem P (y ∷ s) h = (h y (ground arith), All_of_mem P s (λ x m. h x (ground arith)))

pub All-sorted {κ} : (P : ℕ → Type κ) (s : List ℕ) → All P s → All P (sorted s)
All-sorted P s h = All_of_mem P (sorted s) (λ x m. All-mem P s x h (sym (mem-sorted x s) ∙ m))

insert-ne-nil : (x : ℕ) (s : List ℕ) → insert x s ≢ []
unfolding insert
insert-ne-nil x [] e = cc
insert-ne-nil x (y ∷ s) e = ground arith

pub sorted-eq-cons : (s : List ℕ) → s ≢ [] → (x : ℕ) × (xs : List ℕ) × (sorted s ≡ x ∷ xs)
unfolding sorted
sorted-eq-cons [] ne = absurd (ne refl)
sorted-eq-cons (x ∷ s) ne = go (insert x (sorted s)) (insert-ne-nil x (sorted s))
  where
    go : (t : List ℕ) → t ≢ [] → (y : ℕ) × (ys : List ℕ) × (t ≡ y ∷ ys)
    go [] h = absurd (h refl)
    go (y ∷ ys) h = (y, ys, refl)
