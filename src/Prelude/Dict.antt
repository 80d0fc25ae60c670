-- ===== src/Prelude/Dict.antt =====
-- Python's dicts from texts, as lists of their entries in the order of insertion.
use mathlib.Core.Path.{◌≡◌, refl}
use mathlib.Core.Bool.{Bool, true, false, not, ◌&&◌, ◌||◌}
use mathlib.Core.Option.{Option, none, some}
use mathlib.Core.List.{List, [], ◌∷◌}
use native.Mathlib.Omega.{arith}
use pipe_os.Prelude.Tests.{if◌then◌else◌}
use pipe_os.Prelude.Strings.{Text, text_eq, text_eq_iff}

abbrev pub Dict : Type 0 → Type 0
Dict A = List (Text × A)

module _ {A : Type 0} where
  -- `d.get(key)`
  unfoldable pub get : Text → Dict A → Option A
  get key [] = none
  get key ((j, a) ∷ d) = if text_eq j key then some a else get key d

  -- `d[key] = a`
  unfoldable pub set : Text → A → Dict A → Dict A
  set key a [] = (key, a) ∷ []
  set key a ((j, b) ∷ d) = if text_eq j key then (key, a) ∷ d else (j, b) ∷ set key a d

  -- `del d[key]`
  unfoldable pub del : Text → Dict A → Dict A
  del key [] = []
  del key ((j, a) ∷ d) = let rest = del key d in if text_eq j key then rest else (j, a) ∷ rest

  abbrev is_there : Option A → Bool
  is_there none = false
  is_there (some a) = true

  -- `key in d`
  unfoldable pub has : Text → Dict A → Bool
  unfolding get
  has key d = is_there (get key d)

  pub get-set :
      (j key : Text) (a : A) (d : Dict A)
      → get j (set key a d) ≡ (if text_eq key j then some a else get j d)
  unfolding get set
  get-set j key a [] = refl
  get-set j key a ((i, b) ∷ d) =
      ground (arith, get-set j key a d, text_eq_iff i key, text_eq_iff i j, text_eq_iff key j)

  pub get-del :
      (j key : Text) (d : Dict A) → get j (del key d) ≡ (if text_eq key j then none else get j d)
  unfolding get del
  get-del j key [] = ground arith
  get-del j key ((i, b) ∷ d) =
      ground (arith, get-del j key d, text_eq_iff i key, text_eq_iff i j, text_eq_iff key j)

  pub has-set :
      (j key : Text) (a : A) (d : Dict A) → has j (set key a d) ≡ (text_eq key j || has j d)
  unfolding has
  has-set j key a d = ground (arith, get-set j key a d)

  pub has-del : (j key : Text) (d : Dict A) → has j (del key d) ≡ (not (text_eq key j) && has j d)
  unfolding has
  has-del j key d = ground (arith, get-del j key d)
