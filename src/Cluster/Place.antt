-- ===== src/Cluster/Place.antt =====
-- cluster.py, `pick_idlest` and `start_agent`: which member takes an agent, and what its answer says.
pub mod Idlest
pub mod Warned
use pipe_os.Prelude.{
  ℕ, Bool, true, false, not, ◌&&◌, ◌||◌, Option, none, some, List, [], ◌∷◌, ◌++◌, leb, ltb, ◌==◌,
  if◌then◌else◌, length, Text, text_eq, is_empty, codes,
}
use pipe_os.Prelude.Fallible.{Fallible, ok, err}
use pipe_os.Prelude.Ascii.{lower, text_ltb}
use pipe_os.Cluster.{ClusterError, Outcome, norm}

-- What a row of the page says that `pick_idlest` reads; `load1` and `ncpu` are absent where they are
-- no number.
pub record Seat : Type 0 where
  pub id : Text
  pub awake : Bool
  pub busy : Bool
  pub load1 : Option ℕ
  pub ncpu : Option ℕ
  pub agents : List Text

-- Infinity, for a load that is not known, comes after each number.
unfoldable pub load_ltb : Option ℕ → Option ℕ → Bool
load_ltb (some x) (some y) = ltb x y
load_ltb (some x) none = true
load_ltb none y = false

unfoldable pub is_free : Seat → Bool
is_free r = r.awake && not r.busy

unfoldable pub free : List Seat → List Seat
unfolding is_free
free [] = []
free (r ∷ rows) = if is_free r then r ∷ free rows else free rows

unfoldable pub first_id : List Seat → Option Text
first_id [] = none
first_id (r ∷ rows) = some r.id

-- `per_cpu` is the quotient of floating point, by its place among the numbers: two loads may have the
-- same quotient or, by rounding, not.
module _ (per_cpu : ℕ → ℕ → ℕ) where
  -- `load`
  unfoldable pub load : Seat → Option ℕ
  load r = elim r.load1 [
    | none ↦ none
    | some l1 ↦ elim r.ncpu [
      | none ↦ none
      | some n ↦ (if ltb 0 n then some (per_cpu l1 n) else none)
    ]
  ]

  -- The order of the keys of the sort.
  unfoldable pub before : Seat → Seat → Bool
  unfolding load_ltb
  before r s =
      if load_ltb (load r) (load s)
      then true
      else if load_ltb (load s) (load r)
      then false
      else if ltb (length r.agents) (length s.agents)
      then true
      else if ltb (length s.agents) (length r.agents)
      then false
      else text_ltb r.id s.id

  unfoldable pub put : Seat → List Seat → List Seat
  put r [] = r ∷ []
  put r (s ∷ rows) = let rest = put r rows in if before s r then s ∷ rest else r ∷ s ∷ rows

  -- `ok.sort(key=…)`, which keeps the order of rows with the same key
  unfoldable pub sort_seats : List Seat → List Seat
  unfolding put
  sort_seats [] = []
  sort_seats (r ∷ rows) = put r (sort_seats rows)

  unfoldable pub pick_idlest : List Seat → Option Text
  unfolding free sort_seats first_id
  pick_idlest rows = first_id (sort_seats (free rows))

-- A member by what an owner types: its id, its name or its host.
pub record Named : Type 0 where
  pub id : Text
  pub name : Text
  pub host : Text

-- `next`, of the members that are hit
unfoldable pub hit : Text → List Named → Option Text
hit want [] = none
hit want (r ∷ rows) =
    if not (is_empty want)
      && (text_eq want r.id || text_eq want (lower r.name) || text_eq want (norm r.host))
    then some r.id
    else hit want rows

-- What is asked of an agent, and what the member that takes it answers; the warning's sentences, the
-- member's own among them.
pub record Spec : Type 0 where
  pub cap_usd : Option ℕ
  pub needs : List Text

pub data Warning : Type 0 where
  uncapped ungated : Warning
  said : Text → Warning

pub record Taken : Type 0 where
  pub error : Text
  pub cap_usd : Option ℕ
  pub needs : List Text
  pub on : Text
  pub picked : Bool
  pub warning : List Warning

-- The answers of `start_agent`, with their status.
pub data Started : Type 0 where
  no_idle_member not_a_member did_not_take not_a_members_answer : Started
  refused : (status : ℕ) → (on : Text) → (error : Text) → Started
  started : Taken → Started

unfoldable pub same_list : List Text → List Text → Bool
same_list [] [] = true
same_list [] (y ∷ ys) = false
same_list (x ∷ xs) [] = false
same_list (x ∷ xs) (y ∷ ys) = text_eq x y && same_list xs ys

-- `spec.get("cap_usd") and out.get("cap_usd") != spec["cap_usd"]`
unfoldable pub lost_cap : Spec → Taken → Bool
lost_cap s out = elim s.cap_usd [
  | none ↦ false
  | some c ↦ elim out.cap_usd [ none ↦ ltb 0 c | some d ↦ ltb 0 c && not (d == c) ]
]

unfoldable pub lost_needs : Spec → Taken → Bool
unfolding same_list
lost_needs s out = elim s.needs [ [] ↦ false | x ∷ xs ↦ not (same_list out.needs s.needs) ]

unfoldable pub warnings : Spec → Taken → List Warning
unfolding lost_cap lost_needs
warnings s out =
    let first = if lost_cap s out then uncapped ∷ [] else out.warning in
    if lost_needs s out then first ++ (ungated ∷ []) else first

-- The end of `start_agent`, on the answer of the member `mid`.
unfoldable pub finish : Bool → Text → Spec → ℕ → Taken → Started
unfolding warnings
finish idlest mid s st out =
    if st == 200
    then started (record out { on = mid; picked = idlest; warning = warnings s out })
    else refused st mid out.error

-- `call` of the member with the spec: its status, its answer, and the member that gave it.
abbrev pub Call : Type 0
Call = Text → Spec → Outcome (ℕ × Taken × Option Text)

unfoldable pub at_member : (Spec → ℕ × Taken) → Call → Text → Bool → Text → Spec → Started
unfolding finish
at_member local_start call me idlest mid s =
    if text_eq mid me
    then (let (st, out) = local_start s in finish idlest mid s st out)
    else elim (call mid s) [
      | err e ↦ did_not_take
      | ok (st, out, who) ↦ elim who [
        | none ↦ not_a_members_answer
        | some w ↦ finish idlest mid s st out
      ]
    ]

module _ (per_cpu : ℕ → ℕ → ℕ) (local_start : Spec → ℕ × Taken) (call : Call) where
  -- `start_agent`, with the members of the view, the rows of the page, and the Machine's own id
  unfoldable pub start_agent : List Named → List Seat → Text → Text → Spec → Started
  unfolding pick_idlest hit at_member
  start_agent view page me on s =
      if text_eq on (codes "idlest")
      then elim (pick_idlest per_cpu page) [
        | none ↦ no_idle_member
        | some mid ↦
            (if is_empty mid then no_idle_member else at_member local_start call me true mid s)
      ]
      else elim (hit (norm on) view) [
        | none ↦ not_a_member
        | some mid ↦ at_member local_start call me false mid s
      ]
