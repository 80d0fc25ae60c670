-- ===== src/Cluster/Rolling/Turns.antt =====
-- `rolling_ok` of cluster.py: who is cleared, together with whom, and when somebody is.
use pipe_os.Prelude.{
  ◌<◌, ◌≡◌, ◌≢◌, ◌⊎◌, refl, sym, ap, ◌∙◌, true, false, inl, inr, Option-cases, none, some, List, [],
  ◌∷◌, Bool-cases, All, length, Text, text_eq, text_eq_iff, text_eq_self, is_empty, codes, arith,
}
use pipe_os.Prelude.Ascii.{lower, strip_space, contains}
use pipe_os.Cluster.Rolling.{
  Row, clear, objection, objections, commit_of, needs_it, waiting, turn, insert_id, rolling_ok,
}

-- A release that is known makes the queue the same for everyone.
pub waiting-same :
    (target own own' : Text) (rows : List Row)
    → is_empty target ≡ false
    → waiting target own rows ≡ waiting target own' rows
unfolding waiting needs_it
waiting-same target own own' [] h = refl
waiting-same target own own' (r ∷ rows) h = ground (arith, h, waiting-same target own own' rows h)

turn-clear :
    (me : Text) (xs : List Text)
    → turn me xs ≡ clear
    → (xs ≡ []) ⊎ ((rest : List Text) × (xs ≡ me ∷ rest))
unfolding turn
turn-clear me [] e = inl refl
turn-clear me (x ∷ xs) e = inr (xs, ap (λ t. t ∷ xs) ((text_eq_iff x me).0 (ground (arith, e))))

-- What a cleared Machine in a cluster of more than one knows.
record Cleared (rows : List Row) (me target : Text) : Type 0 where
  no_objection : objections me rows ≡ none
  my_turn : turn me (waiting target (commit_of me rows) rows) ≡ clear

objection-clear : (me : Text) (r : Row) → ¬ (objection me r ≡ some clear)
unfolding objection
objection-clear me r e = ground (arith, e)

-- No objection is the clearance itself.
objections-clear : (me : Text) (rows : List Row) → ¬ (objections me rows ≡ some clear)
unfolding objections
objections-clear me [] e = ground (arith, e)
objections-clear me (r ∷ rows) e = elim (Option-cases (objection me r)) [
  | inl nothing ↦ objections-clear me rows (ground (arith, nothing, e))
  | inr (a, found) ↦ objection-clear me r (ground (arith, found, e))
]

rolling_ok-Cleared :
    (rows : List Row) (me target : Text)
    → 1 < length rows
    → rolling_ok rows me target ≡ clear
    → Cleared rows me target
unfolding rolling_ok
rolling_ok-Cleared rows me target many e = elim (Option-cases (objections me rows)) [
  | inl nothing ↦ record { no_objection = nothing; my_turn = ground (arith, nothing, e, many) }
  | inr (a, found) ↦ absurd (objections-clear me rows (ground (arith, found, e, many)))
]

-- Of two Machines that read the same page of a cluster of more than one and ask about the same
-- release, both are cleared only if they are one, as long as some member still needs the release.
pub rolling_ok-one :
    (rows : List Row) (me you target : Text)
    → 1 < length rows
    → is_empty target ≡ false
    → waiting target [] rows ≢ []
    → rolling_ok rows me target ≡ clear
    → rolling_ok rows you target ≡ clear
    → me ≡ you
rolling_ok-one rows me you target many known wanted e e' =
    let mine = rolling_ok-Cleared rows me target many e in
    let yours = rolling_ok-Cleared rows you target many e' in
    let q = waiting-same target [] (commit_of me rows) rows known in
    let q' = waiting-same target [] (commit_of you rows) rows known in
    elim (turn-clear me (waiting target (commit_of me rows) rows) mine.my_turn) [
      | inl nobody ↦ absurd (wanted (q ∙ nobody))
      | inr (rest, first) ↦
          elim (turn-clear you (waiting target (commit_of you rows) rows) yours.my_turn) [
            | inl nobody ↦ absurd (wanted (q' ∙ nobody))
            | inr (rest', first') ↦
                (let same : me ∷ rest ≡ you ∷ rest' = sym first ∙ (sym q ∙ (q' ∙ first')) in cc)
          ]
    ]

-- A member that lets others update: it is not updating, answers, has reported, and not as critical.
abbrev pub IsWell : Row → Type 0
IsWell r =
    (r.updating ≡ false)
    × (r.awake ≡ true)
    × (is_empty (strip_space r.verdict) ≡ false)
    × (contains (codes "critical") (lower r.verdict) ≡ false)

abbrev pub WellIfOther : Text → Row → Type 0
WellIfOther me r = text_eq r.id me ≡ false → IsWell r

objections-none :
    (me : Text) (rows : List Row) → objections me rows ≡ none → All (WellIfOther me) rows
unfolding objections objection
objections-none me [] e = tt
objections-none me (r ∷ rows) e =
    (λ other. ground (arith, e), objections-none me rows (ground (arith, e)))

-- When a Machine of a cluster of more than one is cleared, every other member is awake, is not
-- applying a release, and has a report that is not critical.
pub rolling_ok-IsWell :
    (rows : List Row) (me target : Text)
    → 1 < length rows
    → rolling_ok rows me target ≡ clear
    → All (WellIfOther me) rows
rolling_ok-IsWell rows me target many e =
    objections-none me rows (rolling_ok-Cleared rows me target many e).no_objection

pub well_no_objection :
    (me : Text) (rows : List Row) → All (WellIfOther me) rows → objections me rows ≡ none
unfolding objections objection
well_no_objection me [] h = refl
well_no_objection me (r ∷ rows) h = elim (Bool-cases (text_eq r.id me)) [
  | inl own ↦ ground (arith, own, well_no_objection me rows h.1)
  | inr other ↦ (let well = h.0 other in ground (arith, well, well_no_objection me rows h.1))
]

-- With no release given, two well members on two different releases are both cleared.
pub rolling_ok-no_target :
    (a b : Row)
    → text_eq a.id b.id ≡ false
    → text_eq b.id a.id ≡ false
    → IsWell a
    → IsWell b
    → is_empty a.commit ≡ false
    → is_empty b.commit ≡ false
    → text_eq a.commit b.commit ≡ false
    → text_eq b.commit a.commit ≡ false
    → (rolling_ok (a ∷ b ∷ []) a.id [] ≡ clear) × (rolling_ok (a ∷ b ∷ []) b.id [] ≡ clear)
unfolding rolling_ok turn waiting needs_it commit_of objections objection insert_id
rolling_ok-no_target a b ab ba wa wb ca cb cab cba = (
  ground (arith, text_eq_self a.id, text_eq_self a.commit),
  ground (arith, text_eq_self b.id, text_eq_self b.commit),
)
