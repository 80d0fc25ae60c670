-- ===== src/Cluster/Membership.antt =====
-- cluster.py: who is left on the member list after `drop_member` and `reconcile`.
use pipe_os.Prelude.{
  ◌≡◌, refl, sym, ap, Bool, true, false, not, ◌&&◌, ◌||◌, Option, none, some, List, [], ◌∷◌, ◌++◌,
  if◌then◌else◌, Text, text_eq, text_eq_iff, text_eq_self, is_empty, arith,
}
use pipe_os.Prelude.Fallible.{ok, bind-eq-ok, ok-injective}
use pipe_os.Prelude.Dict.{Dict, get, del, has, get-del, has-del}
use pipe_os.Cluster.{
  Member, Doc, Stored, absent, broken, doc, Files, Box, read, norm, named, member_id, write,
}
use pipe_os.Cluster.Edits.{Seen, need, drop_member, drop_seen}

named-has : (t key : Text) (d : Dict Member) → named t d ≡ some key → has key d ≡ true
unfolding named has get
named-has t key [] e = absurd (ground arith)
named-has t key ((j, m) ∷ d) e = ground (arith, named-has t key d, text_eq_self j)

-- What `member_id` returns is a member.
pub member_id-has :
    (ms : Dict Member) (target key : Text) → member_id ms target ≡ ok key → has key ms ≡ true
unfolding member_id
member_id-has ms target key e = ground (arith, e, named-has (norm target) key ms)

module _ (fingerprint : Text → Text) (is_authority : Text → Bool) (digest : Text → Text)
    (b : Box) where
  -- What a removal took off the stored list, and what it left there.
  pub record Dropped (target : Text) (w : Files) (d' : Doc) (w' : Files) : Type 0 where
    pub before : Doc
    pub key : Text
    pub was_stored : w.stored ≡ doc before
    pub meant : member_id before.members target ≡ ok key
    pub was_member : has key before.members ≡ true
    pub not_self : text_eq key b.self ≡ false
    pub after :
        (j : Text) → get j d'.members ≡ (if text_eq key j then none else get j before.members)
    pub now_stored : w' ≡ write fingerprint is_authority digest b d' w

  read-stored :
      (w : Files) (found : Option Doc) (d : Doc)
      → read w.stored ≡ ok found
      → found ≡ some d
      → w.stored ≡ doc d
  unfolding read
  read-stored w found d e f = by_file w.stored refl
    where
      by_file : (s : Stored) → w.stored ≡ s → w.stored ≡ doc d
      by_file absent q = absurd (ground arith)
      by_file broken q = absurd (ground arith)
      by_file (doc x) q = ground (arith, q, e, f)

  need-some :
      (found : Option Doc) (d : Doc)
      → need fingerprint is_authority digest b found ≡ ok d
      → found ≡ some d
  need-some none d e = ground arith
  need-some (some x) d e = ground arith

  -- A `drop_member` that returns a list removed one member from the stored one, which the target
  -- stands for and which is not the Machine itself; every other member is as it was.
  pub drop_member-Dropped :
      (target : Text) (w : Files) (d' : Doc) (w' : Files)
      → drop_member fingerprint is_authority digest b target w ≡ ok (d', w')
      → Dropped target w d' w'
  unfolding drop_member
  drop_member-Dropped target w d' w' e =
      let (found, e0, k0) = bind-eq-ok (read w.stored) _ e in
      let (d, e1, k1) = bind-eq-ok (need fingerprint is_authority digest b found) _ k0 in
      let (key, e2, k2) = bind-eq-ok (member_id d.members target) _ k1 in
      let other : text_eq key b.self ≡ false = ground (arith, k2) in
      let left : Doc = record d { members = del key d.members } in
      let out : (left, write fingerprint is_authority digest b left w) ≡ (d', w') =
        ok-injective (rw other at k2) in
      record {
        before = d;
        key = key;
        was_stored = read-stored w found d e0 (need-some found d e1);
        meant = e2;
        was_member = member_id-has d.members target key e2;
        not_self = other;
        after = λ j. rw (← ap (λ p. p.0) out) (get-del j key d.members);
        now_stored = rw (← ap (λ p. p.0) out) (sym (ap (λ p. p.1) out));
      }

  -- A Machine other than this one that was seen in a cluster other than `id`.
  unfoldable pub seen_elsewhere : Text → Text → Seen → Bool
  seen_elsewhere id key [] = false
  seen_elsewhere id key ((j, cl) ∷ seen) =
      (text_eq j key && (not (text_eq j b.self) && (not (is_empty cl) && not (text_eq cl id))))
      || seen_elsewhere id key seen

  same_key : (d : Dict Member) (j key : Text) → text_eq j key ≡ true → has j d ≡ has key d
  same_key d j key e = rw ((text_eq_iff j key).0 e)

  -- `reconcile` drops from the list just the members, the Machine itself apart, that the LAN shows in
  -- another cluster.
  pub has-drop_seen :
      (id key : Text) (seen : Seen) (ms : Dict Member) (dropped : List Text)
      → has key (drop_seen fingerprint is_authority digest b id seen ms dropped).0
        ≡ (has key ms && not (seen_elsewhere id key seen))
  unfolding drop_seen seen_elsewhere
  has-drop_seen id key [] ms dropped = ground arith
  has-drop_seen id key ((j, cl) ∷ seen) ms dropped = ground (
    arith,
    has-drop_seen id key seen (del j ms) (dropped ++ j ∷ []),
    has-drop_seen id key seen ms dropped,
    has-del key j ms,
    same_key ms j key,
  )
