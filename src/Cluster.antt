-- ===== src/Cluster.antt =====
-- cluster.py, the member list: `read`, `write` with the bundle and the status it publishes, and the
-- names that an owner may type for a member. A document that is stored has an id.
pub mod Edits
pub mod Sorted
pub mod Saved
pub mod Invariant
pub mod Membership
pub mod Rolling
pub mod Place
pub mod Calls
use pipe_os.Prelude.{
  ℕ, Bool, true, false, not, ◌&&◌, ◌||◌, Option, none, some, List, [], ◌∷◌, ◌++◌, leb, ◌==◌,
  if◌then◌else◌, length, drop, take, Text, text_eq, is_empty, codes, join, strip_right,
}
use pipe_os.Prelude.Fallible.{Fallible, ok, err, ◌>>=◌}
use pipe_os.Prelude.Dict.{Dict, get, set, del, has}
use pipe_os.Prelude.Ascii.{lower, strip_space, remove_suffix, starts_with, text_ltb}

pub record Member : Type 0 where
  pub ca : Text
  pub name : Text
  pub added : ℕ

pub record Doc : Type 0 where
  pub id : Text
  pub created : Option ℕ
  pub members : Dict Member

-- What the file of the member list holds; `broken` does not parse or describes no cluster.
pub data Stored : Type 0 where
  absent broken : Stored
  doc : Doc → Stored

-- The messages of `ClusterError`, those of `add`, `resolve` and `adopt` last, and the `KeyError` of `replace`.
pub data ClusterError : Type 0 where
  does_not_parse already_in_cluster not_in_cluster no_authority not_an_authority : ClusterError
  not_a_document not_a_member not_itself elsewhere key_error : ClusterError
  this_machine already_a_member refused_join another_authority unknown_machine : ClusterError
  no_machine already_claimed refused_claim : ClusterError

abbrev pub Outcome : Type 0 → Type 0
Outcome = Fallible ClusterError

-- What `publish` writes: the cluster, the own key, the members' hash and how many they are.
pub record Status : Type 0 where
  pub cl : Text
  pub k : Text
  pub h : Text
  pub n : ℕ

-- The files of a Machine, and the cache of who signed a leaf, by the leaf's fingerprint.
pub record Files : Type 0 where
  pub stored : Stored
  pub bundle : Option Text
  pub status : Option Status
  pub identities : Dict (Option Text)

-- A Machine: its id, and the certificate of its authority, empty where there is none.
pub record Box : Type 0 where
  pub self : Text
  pub ca : Text

-- `read`
unfoldable pub read : Stored → Outcome (Option Doc)
read absent = ok none
read broken = err does_not_parse
read (doc d) = ok (some d)

-- One more entry of a dict whose keys ascend.
put_sorted : Text → Member → Dict Member → Dict Member
put_sorted key m [] = (key, m) ∷ []
put_sorted key m ((j, n) ∷ d) =
    let rest = put_sorted key m d in
    if text_eq j key
    then (key, m) ∷ d
    else if text_ltb key j
    then (key, m) ∷ (j, n) ∷ d
    else (j, n) ∷ rest

-- `sorted(d.items())`
unfoldable pub sort : Dict Member → Dict Member
unfolding put_sorted
sort [] = []
sort ((key, m) ∷ d) = put_sorted key m (sort d)

pems : Dict Member → Text
pems [] = []
pems ((key, m) ∷ d) = if is_empty m.ca then pems d else strip_right 10 m.ca ++ (10 ∷ pems d)

-- The bundle's content; no file for an empty list.
unfoldable pub bundle_of : Dict Member → Option Text
unfolding pems sort
bundle_of [] = none
bundle_of (m ∷ d) = some (pems (sort (m ∷ d)))

-- `fingerprint` of a certificate, "" where it is none; whether openssl calls it an authority; and
-- the first 16 hex digits of a SHA-256: openssl and `hashlib` are not modelled.
module _ (fingerprint : Text → Text) (is_authority : Text → Bool) (digest : Text → Text) where
  hash_lines : Dict Member → List Text
  hash_lines [] = []
  hash_lines ((key, m) ∷ d) = (key ++ (b' ' ∷ fingerprint m.ca)) ∷ hash_lines d

  -- `members_hash` of a document
  unfoldable pub members_hash : Doc → Text
  unfolding hash_lines sort
  members_hash d = digest (join 10 (hash_lines (sort d.members)))

  -- `publish` of a document
  unfoldable pub status_of : Box → Doc → Status
  status_of b d = record {
    cl = d.id;
    k = fingerprint b.ca;
    h = members_hash d;
    n = length d.members;
  }

  -- `write`: the keys are sorted on the way into the file.
  unfoldable pub write : Box → Doc → Files → Files
  unfolding status_of bundle_of
  write b d w = record {
    stored = doc (record d { members = sort d.members });
    bundle = bundle_of d.members;
    status = some (status_of b d);
    identities = [];
  }

  -- one member of `_valid_doc`
  unfoldable pub is_valid_member : Member → Bool
  is_valid_member m = not (is_empty m.ca) && not (is_empty (fingerprint m.ca)) && is_authority m.ca

  all_valid : Dict Member → Bool
  all_valid [] = true
  all_valid ((key, m) ∷ d) = is_valid_member m && all_valid d

  -- `_valid_doc`, where `none` stands for what is no dict, or has no dict of members
  unfoldable pub valid_doc : Option Doc → Outcome Doc
  unfolding all_valid
  valid_doc none = err not_a_document
  valid_doc (some d) =
      if is_empty d.id
      then err not_a_document
      else if all_valid d.members
      then ok d
      else err not_an_authority

-- `_self_entry`
unfoldable pub self_entry : Box → Text → ℕ → Outcome Member
self_entry b name now =
    if is_empty b.ca then err no_authority else ok (record { ca = b.ca; name = name; added = now })

abbrev is_hex : ℕ → Bool
is_hex c = (leb b'0' c && leb c b'9') || (leb b'a' c && leb c b'f')

all_hex : Text → Bool
all_hex [] = true
all_hex (c ∷ s) = is_hex c && all_hex s

-- `$` also matches in front of a last line end.
abbrev ends_here : Text → Bool
ends_here [] = true
ends_here (c ∷ s) = c == 10 && is_empty s

-- `_HOST_ID.match(t)`, its group or the text itself
unfoldable pub short_id : Text → Text
unfolding all_hex
short_id t =
    let rest = drop 7 t in
    let digits = take 4 rest in
    if starts_with (codes "pipeos-") t
      && length digits == 4
      && all_hex digits
      && ends_here (drop 4 rest)
    then digits
    else t

-- `_norm`
unfoldable pub norm : Text → Text
unfolding short_id
norm target = short_id (remove_suffix (codes ".local") (lower (strip_space target)))

unfoldable pub named : Text → Dict Member → Option Text
named t [] = none
named t ((key, m) ∷ d) = if text_eq (lower m.name) t then some key else named t d

-- `member_id`
unfoldable pub member_id : Dict Member → Text → Outcome Text
unfolding named
member_id ms target =
    let t = norm target in
    if has t ms
    then ok t
    else if is_empty t
    then err not_a_member
    else elim (named t ms) [ none ↦ err not_a_member | some key ↦ ok key ]
