-- ===== src/Cluster/Rolling.antt =====
-- cluster.py, `rolling_ok`: which member may apply a release now. A row has what the page says of a
-- member; a text that is missing there is empty.
pub mod Turns
pub mod Lowest
use pipe_os.Prelude.{
  ℕ, suc, ◌≤◌, ◌<◌, ◌≡◌, ◌≢◌, refl, sym, ap, ◌∙◌, Bool, true, false, not, ◌&&◌, ◌||◌, inl, inr,
  Option, none, some, List, [], ◌∷◌, ◌++◌, leb, ltb, if◌then◌else◌, Bool-cases, All, length, Text,
  text_eq, text_eq_iff, text_eq_self, is_empty, codes, arith,
}
use pipe_os.Prelude.Ascii.{lower, strip_space, starts_with, contains, text_ltb}

pub record Row : Type 0 where
  pub id : Text
  pub name : Text
  pub updating : Bool
  pub awake : Bool
  pub verdict : Text
  pub commit : Text

-- What stops an update, with what its sentence names.
pub data Answer : Type 0 where
  clear unknown_release : Answer
  applying not_answering no_report : Text → Answer
  not_green : Text → Text → Answer
  goes_first : Text → ℕ → Answer

-- `r.get("name") or r["id"]`
abbrev pub called : Row → Text
called r = if is_empty r.name then r.id else r.name

-- One round of the loop over the members; `none` goes on.
unfoldable pub objection : Text → Row → Option Answer
objection me r =
    if text_eq r.id me
    then none
    else if r.updating
    then some (applying (called r))
    else if not r.awake
    then some (not_answering (called r))
    else if is_empty (strip_space r.verdict)
    then some (no_report (called r))
    else if contains (codes "critical") (lower r.verdict)
    then some (not_green (called r) r.verdict)
    else none

unfoldable pub objections : Text → List Row → Option Answer
unfolding objection
objections me [] = none
objections me (r ∷ rows) = elim (objection me r) [ some a ↦ some a | none ↦ objections me rows ]

-- `mine.get("commit")`, of the first row of that id
unfoldable pub commit_of : Text → List Row → Text
commit_of me [] = []
commit_of me (r ∷ rows) = if text_eq r.id me then r.commit else commit_of me rows

unfoldable pub needs_it : Text → Text → Row → Bool
needs_it target own r =
    if is_empty r.commit
    then true
    else if is_empty target
    then text_eq r.commit own
    else not (starts_with target r.commit)

unfoldable pub insert_id : Text → List Text → List Text
insert_id x [] = x ∷ []
insert_id x (y ∷ ys) = if text_ltb y x then y ∷ insert_id x ys else x ∷ y ∷ ys

-- `sorted(r["id"] for r in members if needs_it(r))`
unfoldable pub waiting : Text → Text → List Row → List Text
unfolding needs_it insert_id
waiting target own [] = []
waiting target own (r ∷ rows) =
    if needs_it target own r
    then insert_id r.id (waiting target own rows)
    else waiting target own rows

-- The last test: whether the lowest id of those that wait is this Machine's.
unfoldable pub turn : Text → List Text → Answer
turn me [] = clear
turn me (x ∷ xs) = if text_eq x me then clear else goes_first x (suc (length xs))

unfoldable pub rolling_ok : List Row → Text → Text → Answer
unfolding objections commit_of waiting turn
rolling_ok rows me target = if leb (length rows) 1 then clear else elim (objections me rows) [
  | some a ↦ a
  | none ↦
      (let own = commit_of me rows in
        if is_empty own then unknown_release else turn me (waiting target own rows))
]
