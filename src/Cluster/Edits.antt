-- ===== src/Cluster/Edits.antt =====
-- cluster.py, the edits of the member list: `init`, `add_member`, `drop_member`, `replace`, `join`
-- and `reconcile`. `fresh` is the random id of a new cluster.
use pipe_os.Prelude.{
  ℕ, Bool, true, false, not, ◌&&◌, ◌||◌, Option, none, some, List, [], ◌∷◌, ◌++◌, ltb,
  if◌then◌else◌, length, Text, text_eq, is_empty,
}
use pipe_os.Prelude.Fallible.{ok, err, ◌>>=◌}
use pipe_os.Prelude.Dict.{Dict, get, set, del, has}
use pipe_os.Cluster.{
  Member, Doc, Stored, already_in_cluster, not_in_cluster, not_an_authority, not_itself, elsewhere,
  key_error, Outcome, Files, Box, read, members_hash, write, valid_doc, self_entry, member_id,
}

-- What `replace` returns.
pub data Taken : Type 0 where
  taken same removed other_cluster : Taken

-- What the responder says of a Machine: its id and the cluster it is in, "" for none.
abbrev pub Seen : Type 0
Seen = Dict Text

abbrev pub or_now : Option ℕ → ℕ → ℕ
or_now none now = now
or_now (some t) now = t

-- `all(mine["members"][k].get("name") == v.get("name") for …)`
unfoldable pub same_names : Dict Member → Dict Member → Outcome Bool
same_names mine [] = ok true
same_names mine ((key, m) ∷ d) = elim (get key mine) [
  | none ↦ err key_error
  | some n ↦ if text_eq n.name m.name then same_names mine d else ok false
]

abbrev pub is_some : Option Doc → Bool
is_some none = false
is_some (some d) = true

-- `read` with its error kept back, as `init` under `force` and `join` do
unfoldable pub read_or_none : Stored → Option Doc
unfolding read
read_or_none s = elim (read s) [ err e ↦ none | ok d ↦ d ]

module _ (fingerprint : Text → Text) (is_authority : Text → Bool) (digest : Text → Text)
    (b : Box) where
  abbrev save : Doc → Files → Files
  save = write fingerprint is_authority digest b

  -- a cluster of this Machine alone
  abbrev alone : Text → ℕ → Member → Doc
  alone fresh now m = record { id = fresh; created = some now; members = (b.self, m) ∷ [] }

  unfoldable pub start : Text → Text → ℕ → Files → Outcome (Doc × Files)
  start name fresh now w = do
    m ← self_entry b name now
    ok (alone fresh now m, save (alone fresh now m) w)

  unfoldable pub init : Text → Bool → Text → ℕ → Files → Outcome (Doc × Files)
  unfolding read_or_none start
  init name force fresh now w = do
    existing ← (if force then ok (read_or_none w.stored) else read w.stored)
    if is_some existing && not force then err already_in_cluster else start name fresh now w

  -- the document behind `read`, for those that need one
  abbrev pub need : Option Doc → Outcome Doc
  need none = err not_in_cluster
  need (some d) = ok d

  unfoldable pub add_member : Text → Text → Text → ℕ → Files → Outcome (Doc × Files)
  add_member box_id ca name now w = do
    found ← read w.stored
    d ← need found
    if is_empty (fingerprint ca) || not (is_authority ca)
        then err not_an_authority
        else (let d' = record d {
          members = set box_id (record { ca = ca; name = name; added = now }) d.members;
        } in
            ok (d', save d' w))

  unfoldable pub drop_member : Text → Files → Outcome (Doc × Files)
  drop_member target w = do
    found ← read w.stored
    d ← need found
    box_id ← member_id d.members target
    if text_eq box_id b.self
        then err not_itself
        else (let d' = record d { members = del box_id d.members } in ok (d', save d' w))

  -- `(mine["members"].get(me) if mine else None) or _self_entry()`
  unfoldable pub own_entry : Option Doc → ℕ → Outcome Member
  own_entry none now = self_entry b [] now
  own_entry (some d) now = elim (get b.self d.members) [
    | none ↦ self_entry b [] now
    | some m ↦ ok m
  ]

  -- the last test of `replace`
  unfoldable pub is_same : Option Doc → Doc → Outcome Bool
  unfolding same_names
  is_same none d = ok false
  is_same (some mine) d =
      if text_eq (members_hash fingerprint is_authority digest mine)
        (members_hash fingerprint is_authority digest d)
      then same_names mine.members d.members
      else ok false

  abbrev pub is_other : Option Doc → Doc → Bool
  is_other none d = false
  is_other (some mine) d = not (text_eq d.id mine.id)

  -- the document that is taken over
  abbrev taken_over : Doc → Dict Member → ℕ → Doc
  taken_over d ms now = record { id = d.id; created = some (or_now d.created now); members = ms }

  unfoldable pub replace : Option Doc → Text → ℕ → Files → Outcome (Taken × Files)
  unfolding own_entry is_same
  replace incoming fresh now w = do
    d ← valid_doc fingerprint is_authority digest incoming
    mine ← read w.stored
    if is_other mine d
        then ok (other_cluster, w)
        else if not (has b.self d.members)
        then (do m ← own_entry mine now; ok (removed, save (alone fresh now m) w))
        else (do
          unchanged ← is_same mine d
          if unchanged then ok (same, w) else ok (taken, save (taken_over d d.members now) w))

  abbrev pub is_taken : Option Doc → Doc → Bool
  is_taken none d = false
  is_taken (some mine) d = not (text_eq mine.id d.id) && ltb 1 (length mine.members)

  unfoldable pub join : Option Doc → Text → ℕ → Files → Outcome (Member × Files)
  unfolding read_or_none
  join incoming name now w = do
    d ← valid_doc fingerprint is_authority digest incoming
    if is_taken (read_or_none w.stored) d then err elsewhere else do
      m ← self_entry b name now
      ok (m, save (taken_over d (set b.self m d.members) now) w)

  -- the loop of `reconcile`: the members that are left, and those that are dropped
  unfoldable pub drop_seen : Text → Seen → Dict Member → List Text → Dict Member × List Text
  drop_seen id [] ms dropped = (ms, dropped)
  drop_seen id ((key, cl) ∷ seen) ms dropped =
      let gone =
        has key ms && not (text_eq key b.self) && not (is_empty cl) && not (text_eq cl id) in
      drop_seen id seen (if gone then del key ms else ms)
        (if gone then dropped ++ key ∷ [] else dropped)

  unfoldable pub reconcile : Seen → Files → Outcome (List Text × Files)
  unfolding drop_seen
  reconcile seen w = do
    found ← read w.stored
    elim found [
      | none ↦ ok ([], w)
      | some d ↦
          (let (ms, dropped) = drop_seen d.id seen d.members [] in
            ok (dropped, if is_empty dropped then w else save (record d { members = ms }) w))
    ]
