-- ===== src/Cluster/Rolling/Lowest.antt =====
-- `rolling_ok` of cluster.py: the member that goes first.
use mathlib.Core.List.{Memᴰ}
use mathlib.Core.List.Memᴰ.{head, tail}
use pipe_os.Prelude.{
  ◌≡◌, refl, sym, ap, ◌∙◌, true, false, inl, inr, List, [], ◌∷◌, Bool-cases, All, Text, text_eq_iff,
  text_eq_self, is_empty, arith,
}
use pipe_os.Prelude.Ascii.{text_ltb, text_ltb_total}
use pipe_os.Cluster.Rolling.{Row, clear, commit_of, needs_it, insert_id, waiting, turn, rolling_ok}
use pipe_os.Cluster.Rolling.Turns.{WellIfOther, waiting-same, well_no_objection}

-- No id of the list is below.
abbrev NoneBelow : Text → List Text → Type 0
NoneBelow m xs = All (λ x. text_ltb x m ≡ false) xs

-- No member that still needs the release has a lower id.
abbrev pub IsLowest : Text → Text → List Row → Type 0
IsLowest target m rows = All (λ r. needs_it target [] r ≡ true → text_ltb r.id m ≡ false) rows

insert_id-NoneBelow :
    (m x : Text) (ys : List Text)
    → text_ltb x m ≡ false
    → NoneBelow m ys
    → NoneBelow m (insert_id x ys)
unfolding insert_id
insert_id-NoneBelow m x [] low h = (low, tt)
insert_id-NoneBelow m x (y ∷ ys) low h = elim (Bool-cases (text_ltb y x)) [
  | inl later ↦ rw later (h.0, insert_id-NoneBelow m x ys low h.1)
  | inr first ↦ rw first (low, h)
]

waiting-NoneBelow :
    (target m : Text) (rows : List Row)
    → IsLowest target m rows
    → NoneBelow m (waiting target [] rows)
unfolding waiting
waiting-NoneBelow target m [] h = tt
waiting-NoneBelow target m (r ∷ rows) h = elim (Bool-cases (needs_it target [] r)) [
  | inl needs ↦ rw needs (
      insert_id-NoneBelow m r.id (waiting target [] rows) (h.0 needs)
        (waiting-NoneBelow target m rows h.1))
  | inr done ↦ rw done (waiting-NoneBelow target m rows h.1)
]

insert_id-lowest :
    (m : Text) (ys : List Text) → NoneBelow m ys → (rest : List Text) × (insert_id m ys ≡ m ∷ rest)
unfolding insert_id
insert_id-lowest m [] h = ([], refl)
insert_id-lowest m (y ∷ ys) h = (y ∷ ys, rw (h.0) refl)

insert_id-behind :
    (m x : Text) (ys : List Text)
    → text_ltb x m ≡ false
    → (rest : List Text) × (insert_id x (m ∷ ys) ≡ m ∷ rest)
unfolding insert_id
insert_id-behind m x ys low = elim (Bool-cases (text_ltb m x)) [
  | inl later ↦ (insert_id x ys, rw later refl)
  | inr first ↦
      let same : x ≡ m = (text_eq_iff x m).0 (text_ltb_total x m low first) in
      (m ∷ ys, rw first (ap (λ i. i ∷ m ∷ ys) same))
]

-- The lowest id of those that need the release is the first of the queue.
waiting-lowest :
    (target : Text) (mine : Row) (rows : List Row)
    → Memᴰ mine rows
    → needs_it target [] mine ≡ true
    → IsLowest target mine.id rows
    → (rest : List Text) × (waiting target [] rows ≡ mine.id ∷ rest)
unfolding waiting
waiting-lowest target mine [] at needs h = elim at [ ]
waiting-lowest target mine (r ∷ rows) (head e) needs h =
    let here : needs_it target [] r ≡ true = ap (needs_it target []) (sym e) ∙ needs in
    let first =
      insert_id-lowest mine.id (waiting target [] rows)
        (waiting-NoneBelow target mine.id rows h.1) in
    (first.0, rw here (ap (λ q. insert_id q.id (waiting target [] rows)) (sym e) ∙ first.1))
waiting-lowest target mine (r ∷ rows) (tail at) needs h =
    let (rest, first) = waiting-lowest target mine rows at needs h.1 in
    elim (Bool-cases (needs_it target [] r)) [
      | inr done ↦ (rest, rw done first)
      | inl also ↦
          let behind = insert_id-behind mine.id r.id rest (h.0 also) in
          (behind.0, rw also (ap (insert_id r.id) first ∙ behind.1))
    ]

-- A member that needs a known release, while no member that needs it has a lower id, is cleared when
-- every other member is well and its own release is on the page: the order never stops for want of
-- one who may go.
pub rolling_ok-goes :
    (rows : List Row) (mine : Row) (target : Text)
    → is_empty target ≡ false
    → Memᴰ mine rows
    → needs_it target [] mine ≡ true
    → IsLowest target mine.id rows
    → All (WellIfOther mine.id) rows
    → is_empty (commit_of mine.id rows) ≡ false
    → rolling_ok rows mine.id target ≡ clear
unfolding rolling_ok turn
rolling_ok-goes rows mine target known at needs lowest well named_own =
    let first = waiting-lowest target mine rows at needs lowest in
    ground (
      arith,
      well_no_objection mine.id rows well,
      waiting-same target (commit_of mine.id rows) [] rows known,
      text_eq_self mine.id,
      first.1,
      named_own,
    )
