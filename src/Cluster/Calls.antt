-- ===== src/Cluster/Calls.antt =====
-- cluster.py, the edits that reach other members: `push`, `remove` and `add`, and the token that
-- stands for a password in a join. What a member answers is a parameter.
pub mod Token
pub mod Reported
pub mod Resolve
use pipe_os.Prelude.{
  ℕ, ◌+◌, Bool, true, false, not, ◌&&◌, ◌||◌, Option, none, some, List, [], ◌∷◌, leb, ◌==◌,
  if◌then◌else◌, Text, text_eq, is_empty, codes,
}
use pipe_os.Prelude.Fallible.{Fallible, ok, err, ◌>>=◌}
use pipe_os.Prelude.Dict.{Dict, set}
use pipe_os.Cluster.{
  Member, Doc, ClusterError, not_in_cluster, this_machine, already_a_member, refused_join,
  another_authority, Outcome, Files, Box, read, sort, member_id,
}
use pipe_os.Cluster.Edits.{init, add_member, drop_member}

-- What a member says to a list that it is sent: an object with a result, or with an error.
pub record Said : Type 0 where
  pub result : Option Text
  pub error : Text

-- A line of the report of `push`, and that of `adopt` where the naming failed.
pub data Report : Type 0 where
  taken_as : Text → Report
  answered : (status : ℕ) → (error : Text) → (who : Option Text) → Report
  failed naming_failed : ClusterError → Report

-- `call` of a member with the list.
abbrev pub Send : Type 0
Send = Text → Doc → Outcome (ℕ × Said × Option Text)

abbrev result_of : Option Text → Text
result_of none = codes "ok"
result_of (some s) = s

unfoldable pub report_of : Outcome (ℕ × Said × Option Text) → Report
report_of (err e) = failed e
report_of (ok (st, said, none)) = answered st said.error none
report_of (ok (st, said, some who)) =
    if st == 200 then taken_as (result_of said.result) else answered st said.error (some who)

-- The loop of `push`, over the ids in ascending order.
unfoldable pub push_to : Send → Text → Doc → Dict Member → Dict Report
unfolding report_of
push_to send me d [] = []
push_to send me d ((key, m) ∷ ms) =
    let rest = push_to send me d ms in
    if text_eq key me then rest else (key, report_of (send key d)) ∷ rest

-- `push` of a list to all of its members but this Machine
unfoldable pub push : Send → Text → Doc → Dict Report
unfolding push_to sort
push send me d = push_to send me d (sort d.members)

-- What a Machine answers to a join.
pub record Joined : Type 0 where
  pub id : Text
  pub ca : Text
  pub name : Text

-- `now() + JOIN_TOKEN_TTL`
abbrev pub token_ttl : ℕ
token_ttl = 600

-- The file of the token; `broken` is not a text and a number.
pub data TokenFile : Type 0 where
  no_token broken_token : TokenFile
  live : Text → ℕ → TokenFile

-- `mint_join_token` of a random text
unfoldable pub mint_join_token : Text → ℕ → TokenFile
mint_join_token t now = live t (now + token_ttl)

-- `take_join_token`: whether it is accepted, and the file afterwards
unfoldable pub take_join_token : Text → ℕ → TokenFile → Bool × TokenFile
take_join_token candidate now no_token = (false, no_token)
take_join_token candidate now broken_token = (false, broken_token)
take_join_token candidate now (live t exp) =
    (not (is_empty candidate) && text_eq candidate t && leb now exp, no_token)

module _ (fingerprint : Text → Text) (is_authority : Text → Bool) (digest : Text → Text)
    (b : Box) where
  abbrev pub members_of : Option Doc → Dict Member
  members_of none = []
  members_of (some d) = d.members

  -- `remove`: the id, the report, and the files
  unfoldable pub remove : Send → Text → Files → Outcome ((Text × Dict Report) × Files)
  unfolding push
  remove send typed w = do
    found ← read w.stored
    box_id ← member_id (members_of found) typed
    (d, w') ← drop_member fingerprint is_authority digest b box_id w
    ok ((box_id, push send b.self d), w')

  has_authority : Text → Dict Member → Bool
  has_authority ca [] = false
  has_authority ca ((key, m) ∷ ms) =
      text_eq (fingerprint m.ca) (fingerprint ca) || has_authority ca ms

  abbrev pub or_initial : Option Doc → Text → ℕ → Files → Outcome (Doc × Files)
  or_initial none fresh now w = init fingerprint is_authority digest b [] false fresh now w
  or_initial (some d) fresh now w = ok (d, w)

  -- The checks on what the Machine answered to the join; `none` is no object.
  unfoldable pub accept : Text → ℕ → Option Joined → Outcome Joined
  accept ca st none = if st == 200 then err another_authority else err refused_join
  accept ca st (some j) =
      if not (st == 200)
      then err refused_join
      else if is_empty j.id || not (text_eq (fingerprint j.ca) (fingerprint ca))
      then err another_authority
      else ok j

  -- `add`: `fetch_ca` learns the target's authority, `ask` resolves it and has it join.
  unfoldable pub add :
      (fetch_ca : Text → Outcome Text)
      → (ask : Text → Doc → Outcome (ℕ × Option Joined)) → Send
      → (target name fresh : Text) → (now : ℕ) → Files
      → Outcome ((Text × Dict Report) × Files)
  unfolding push has_authority accept
  add fetch_ca ask send target name fresh now w = do
    found ← read w.stored
    (d, w1) ← or_initial found fresh now w
    ca ← fetch_ca target
    if text_eq (fingerprint ca) (fingerprint b.ca)
        then err this_machine
        else if has_authority ca d.members
        then err already_a_member
        else (do
          (st, answer) ← ask target d
          j ← accept ca st answer
          (d', w2) ←
              add_member fingerprint is_authority digest b j.id ca
                (if is_empty j.name then name else j.name) now w1
          ok ((j.id, push send b.self d'), w2))
