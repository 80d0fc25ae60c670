-- ===== src/Cluster/Place/Idlest.antt =====
-- `pick_idlest` of cluster.py: the order of its keys, and the first of the sorted rows.
use mathlib.Core.List.{Memᴰ}
use mathlib.Core.List.Memᴰ.{head, tail}
use mathlib.Core.List.Memᴰ
use pipe_os.Prelude.{
  ℕ, ◌≡◌, inl, inr, refl, sym, ap, ◌∙◌, true, false, Option, none, some, Option-cases, List, [],
  ◌∷◌, Bool-cases, All, Text, text_eq_iff, arith,
}
use pipe_os.Prelude.Ascii.{text_ltb, text_ltb_asym, text_ltb_total, text_ltb_trans}
use pipe_os.Cluster.Place.{
  Seat, load_ltb, load, before, put, sort_seats, is_free, free, first_id, pick_idlest,
}

load_ltb_asym : (x y : Option ℕ) → load_ltb x y ≡ true → load_ltb y x ≡ false
unfolding load_ltb
load_ltb_asym none y e = ground arith
load_ltb_asym (some x) none e = refl
load_ltb_asym (some x) (some y) e = ground arith

-- What is not before, of three loads.
load_ltb_negative :
    (x y z : Option ℕ) → load_ltb y x ≡ false → load_ltb z y ≡ false → load_ltb z x ≡ false
unfolding load_ltb
load_ltb_negative none none none a b = refl
load_ltb_negative none none (some z) a b = ground arith
load_ltb_negative none (some y) z a b = ground arith
load_ltb_negative (some x) none none a b = refl
load_ltb_negative (some x) none (some z) a b = ground arith
load_ltb_negative (some x) (some y) none a b = refl
load_ltb_negative (some x) (some y) (some z) a b = ground arith

text_ltb_negative :
    (s t u : Text) → text_ltb t s ≡ false → text_ltb u t ≡ false → text_ltb u s ≡ false
text_ltb_negative s t u a b = elim (Bool-cases (text_ltb u s)) [
  | inr later ↦ later
  | inl us ↦ elim (Bool-cases (text_ltb s t)) [
    | inl st ↦
        (let ut : text_ltb u t ≡ true = text_ltb_trans u s t us st in
          absurd (ground (arith, ut, b)))
    | inr ts ↦
        (let same : s ≡ t = (text_eq_iff s t).0 (text_ltb_total s t ts a) in
          let ut : text_ltb u t ≡ true = rw (sym same) us in absurd (ground (arith, ut, b)))
  ]
]

module _ (per_cpu : ℕ → ℕ → ℕ) where
  before_asym : (r s : Seat) → before per_cpu r s ≡ true → before per_cpu s r ≡ false
  unfolding before
  before_asym r s e =
      ground (arith, e, load_ltb_asym (load per_cpu r) (load per_cpu s), text_ltb_asym r.id s.id)

  before_negative :
      (r s t : Seat)
      → before per_cpu s r ≡ false
      → before per_cpu t s ≡ false
      → before per_cpu t r ≡ false
  unfolding before
  before_negative r s t a b =
      (let l = load per_cpu in
        ground (
          arith,
          a,
          b,
          load_ltb_negative (l r) (l s) (l t),
          load_ltb_negative (l s) (l t) (l r),
          load_ltb_negative (l t) (l r) (l s),
          text_ltb_negative r.id s.id t.id,
        ))

  -- Nothing in the list is before the row.
  abbrev NoneBefore : Seat → List Seat → Type 0
  NoneBefore r rows = All (λ s. before per_cpu s r ≡ false) rows

  -- The first of a list is one of `all` and least.
  abbrev Least : List Seat → List Seat → Type 0
  Least all [] = all ≡ []
  Least all (r ∷ rows) = Memᴰ r all × NoneBefore r all

  NoneBefore-later :
      (r s : Seat) (rows : List Seat)
      → before per_cpu s r ≡ false
      → NoneBefore s rows
      → NoneBefore r rows
  NoneBefore-later r s [] a h = tt
  NoneBefore-later r s (t ∷ rows) a h =
      (before_negative r s t a h.0, NoneBefore-later r s rows a h.1)

  before_self : (r : Seat) → before per_cpu r r ≡ false
  before_self r = elim (Bool-cases (before per_cpu r r)) [
    | inl yes' ↦ absurd (ground (arith, yes', before_asym r r yes'))
    | inr later ↦ later
  ]

  put-Least :
      (r : Seat) (all rows : List Seat) → Least all rows → Least (r ∷ all) (put per_cpu r rows)
  unfolding put
  put-Least r all [] h = (head refl, (before_self r, rw h tt))
  put-Least r all (s ∷ rows) h = elim (Bool-cases (before per_cpu s r)) [
    | inl sr ↦ rw sr (tail h.0, (before_asym s r sr, h.1))
    | inr later ↦ rw later (head refl, (before_self r, NoneBefore-later r s all later h.1))
  ]

  sort_seats-Least : (rows : List Seat) → Least rows (sort_seats per_cpu rows)
  unfolding sort_seats
  sort_seats-Least [] = refl
  sort_seats-Least (r ∷ rows) = put-Least r rows (sort_seats per_cpu rows) (sort_seats-Least rows)

  free-IsFree :
      (r : Seat) (rows : List Seat) → Memᴰ r (free rows) → Memᴰ r rows × (is_free r ≡ true)
  unfolding free
  free-IsFree r [] h = absurd (Memᴰ.not-nil h)
  free-IsFree r (s ∷ rows) h = elim (Bool-cases (is_free s)) [
    | inl yes' ↦ elim (Memᴰ.cases_cons (rw yes' at h)) [
      | inl same ↦ (head same, ap is_free same ∙ yes')
      | inr later ↦ (let found = free-IsFree r rows later in (tail found.0, found.1))
    ]
    | inr not' ↦ (let found = free-IsFree r rows (rw not' at h) in (tail found.0, found.1))
  ]

  NoneBefore-free :
      (r : Seat) (rows : List Seat)
      → NoneBefore r (free rows)
      → All (λ s. is_free s ≡ true → before per_cpu s r ≡ false) rows
  unfolding free
  NoneBefore-free r [] h = tt
  NoneBefore-free r (s ∷ rows) h = elim (Bool-cases (is_free s)) [
    | inl yes' ↦ (λ f. (rw yes' at h).0, NoneBefore-free r rows (rw yes' at h).1)
    | inr not' ↦ (λ f. absurd (ground (arith, f, not')), NoneBefore-free r rows (rw not' at h))
  ]

  -- A member of the page that is free, and before which no other such member comes: by the
  -- load per processor, then the agents it has, then its id.
  pub record IsIdlest (rows : List Seat) (mid : Text) : Type 0 where
    pub seat : Seat
    pub on_page : Memᴰ seat rows
    pub its_id : seat.id ≡ mid
    pub unoccupied : is_free seat ≡ true
    pub least : All (λ s. is_free s ≡ true → before per_cpu s seat ≡ false) rows

  first-IsIdlest :
      (rows sorted : List Seat) (mid : Text)
      → Least (free rows) sorted
      → first_id sorted ≡ some mid
      → IsIdlest rows mid
  unfolding first_id
  first-IsIdlest rows [] mid h e = absurd (ground (arith, e))
  first-IsIdlest rows (r ∷ sorted) mid h e =
      let found = free-IsFree r rows h.0 in
      record {
        seat = r;
        on_page = found.0;
        its_id = ground (arith, e);
        unoccupied = found.1;
        least = NoneBefore-free r rows h.1;
      }

  pick_idlest-IsIdlest :
      (rows : List Seat) (mid : Text) → pick_idlest per_cpu rows ≡ some mid → IsIdlest rows mid
  unfolding pick_idlest
  pick_idlest-IsIdlest rows mid e =
      first-IsIdlest rows (sort_seats per_cpu (free rows)) mid (sort_seats-Least (free rows)) e

  none_free : (rows : List Seat) → free rows ≡ [] → All (λ s. is_free s ≡ false) rows
  unfolding free
  none_free [] f = tt
  none_free (r ∷ rows) f = elim (Bool-cases (is_free r)) [
    | inl yes' ↦ absurd (ground (arith, f, yes'))
    | inr not' ↦ (not', none_free rows (rw not' at f))
  ]

  first-none :
      (rows sorted : List Seat)
      → Least (free rows) sorted
      → first_id sorted ≡ none
      → All (λ s. is_free s ≡ false) rows
  unfolding first_id
  first-none rows [] h e = none_free rows h
  first-none rows (r ∷ sorted) h e = absurd (ground (arith, e))

  pick_idlest-nobody :
      (rows : List Seat) → pick_idlest per_cpu rows ≡ none → All (λ s. is_free s ≡ false) rows
  unfolding pick_idlest
  pick_idlest-nobody rows e =
      first-none rows (sort_seats per_cpu (free rows)) (sort_seats-Least (free rows)) e

  abbrev pub Picks : List Seat → Option Text → Type 0
  Picks rows none = All (λ s. is_free s ≡ false) rows
  Picks rows (some mid) = IsIdlest rows mid

  -- `pick_idlest` returns a member of the page that is awake and not busy, and before which no other
  -- such member comes; it returns nobody only where no member is awake and not busy.
  pub pick_idlest-Picks : (rows : List Seat) → Picks rows (pick_idlest per_cpu rows)
  pick_idlest-Picks rows = elim (Option-cases (pick_idlest per_cpu rows)) [
    | inl nobody ↦ rw nobody (pick_idlest-nobody rows nobody)
    | inr (mid, found) ↦ rw found (pick_idlest-IsIdlest rows mid found)
  ]
