-- ===== src/Cluster/Sorted.antt =====
-- `sorted(members.items())` of cluster.py, and what reads the sorted members.
use pipe_os.Prelude.{
  ◌≡◌, refl, sym, ap, ◌∙◌, true, false, inl, inr, some, [], ◌∷◌, if◌then◌else◌, Bool-cases, All,
  Text, text_eq, text_eq_iff, is_empty, arith,
}
use pipe_os.Prelude.Dict.{Dict, get, has}
use pipe_os.Prelude.Ascii.{text_ltb, text_ltb_irrefl, text_ltb_total, text_ltb_trans}
use pipe_os.Cluster.{Member, put_sorted, sort, bundle_of, pems}

get-put_sorted :
    (j key : Text) (m : Member) (d : Dict Member)
    → get j (put_sorted key m d) ≡ (if text_eq key j then some m else get j d)
unfolding get put_sorted
get-put_sorted j key m [] = refl
get-put_sorted j key m ((i, n) ∷ d) =
    ground (arith, get-put_sorted j key m d, text_eq_iff i key, text_eq_iff i j, text_eq_iff key j)

pub get-sort : (key : Text) (d : Dict Member) → get key (sort d) ≡ get key d
unfolding get sort
get-sort key [] = refl
get-sort key ((j, m) ∷ d) = ground (arith, get-put_sorted key j m (sort d), get-sort key d)

pub has-sort : (key : Text) (d : Dict Member) → has key (sort d) ≡ has key d
unfolding has
has-sort key d = ground (arith, get-sort key d)

-- Each key is below all that follow it.
abbrev Below : Text → Text × Member → Type 0
Below key kv = text_ltb key kv.0 ≡ true

abbrev pub Ascends : Dict Member → Type 0
Ascends [] = Unit
Ascends ((key, m) ∷ d) = All (Below key) d × Ascends d

All-Below : (i j : Text) (d : Dict Member) → text_ltb i j ≡ true → All (Below j) d → All (Below i) d
All-Below i j [] h k = tt
All-Below i j ((l, n) ∷ d) h k = (text_ltb_trans i j l h k.0, All-Below i j d h k.1)

put_sorted-Below :
    (i key : Text) (m : Member) (d : Dict Member)
    → text_ltb i key ≡ true
    → All (Below i) d
    → All (Below i) (put_sorted key m d)
unfolding put_sorted
put_sorted-Below i key m [] h k = (h, tt)
put_sorted-Below i key m ((j, n) ∷ d) h k = ground (arith, put_sorted-Below i key m d h k.1)

put_sorted-Ascends :
    (key : Text) (m : Member) (d : Dict Member) → Ascends d → Ascends (put_sorted key m d)
unfolding put_sorted
put_sorted-Ascends key m [] h = (tt, tt)
put_sorted-Ascends key m ((j, n) ∷ d) h = elim (Bool-cases (text_eq j key)) [
  | inl same ↦ rw same (rw (← (text_eq_iff j key).0 same) h)
  | inr other ↦ rw other (elim (Bool-cases (text_ltb key j)) [
    | inl before ↦ rw before ((before, All-Below key j d before h.0), h)
    | inr behind ↦
        let later : text_ltb j key ≡ true = ground (arith, text_ltb_total j key) in
        rw behind (put_sorted-Below j key m d later h.0, put_sorted-Ascends key m d h.1)
  ])
]

pub sort-Ascends : (d : Dict Member) → Ascends (sort d)
unfolding sort
sort-Ascends [] = tt
sort-Ascends ((key, m) ∷ d) = put_sorted-Ascends key m (sort d) (sort-Ascends d)

put_sorted-head :
    (key : Text) (m : Member) (d : Dict Member)
    → All (Below key) d
    → put_sorted key m d ≡ (key, m) ∷ d
unfolding put_sorted
put_sorted-head key m [] h = refl
put_sorted-head key m ((j, n) ∷ d) h = ground (arith, h.0, text_eq_iff j key, text_ltb_irrefl key)

sort_of_Ascends : (d : Dict Member) → Ascends d → sort d ≡ d
unfolding sort
sort_of_Ascends [] h = refl
sort_of_Ascends ((key, m) ∷ d) h = rw (sort_of_Ascends d h.1) (put_sorted-head key m d h.0)

pub sort-sort : (d : Dict Member) → sort (sort d) ≡ sort d
sort-sort d = sort_of_Ascends (sort d) (sort-Ascends d)

put_sorted-filled :
    (key : Text) (m : Member) (d : Dict Member) → is_empty (put_sorted key m d) ≡ false
unfolding put_sorted
put_sorted-filled key m [] = refl
put_sorted-filled key m ((j, n) ∷ d) = ground arith

bundle_of-filled : (d : Dict Member) → is_empty d ≡ false → bundle_of d ≡ some (pems (sort d))
unfolding bundle_of
bundle_of-filled [] h = absurd (ground arith)
bundle_of-filled (m ∷ d) h = refl

pub bundle_of-sort : (d : Dict Member) → bundle_of (sort d) ≡ bundle_of d
bundle_of-sort [] = unfold sort in refl
bundle_of-sort ((key, m) ∷ d) =
    bundle_of-filled (sort ((key, m) ∷ d)) (unfold sort in put_sorted-filled key m (sort d))
    ∙ ap (λ t. some (pems t)) (sort-sort ((key, m) ∷ d))
    ∙ sym (bundle_of-filled ((key, m) ∷ d) refl)
