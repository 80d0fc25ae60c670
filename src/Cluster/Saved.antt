-- ===== src/Cluster/Saved.antt =====
-- cluster.py: the member list and the files that are written beside it, after each edit.
use mathlib.Core.Path.{subst}
use pipe_os.Prelude.{
  ℕ, ◌≡◌, refl, sym, ◌∙◌, Bool, true, false, not, ◌&&◌, ◌||◌, inl, inr, Option, none, some, List,
  [], ◌∷◌, ◌++◌, if◌then◌else◌, Bool-cases, Text, text_eq, text_eq_self, is_empty, arith,
}
use pipe_os.Prelude.Fallible.{ok, err, ◌>>=◌}
use pipe_os.Prelude.Dict.{Dict, get, set, del, has, has-set, has-del}
use pipe_os.Cluster.{
  Member, Doc, already_in_cluster, not_an_authority, not_itself, elsewhere, Stored, absent, broken,
  doc, Status, ClusterError, Outcome, Files, Box, read, sort, bundle_of, members_hash, write,
  valid_doc, self_entry, member_id,
}
use pipe_os.Cluster.Edits.{
  is_some, or_now, is_other, is_taken, other_cluster, same, taken, start, need, Seen, init,
  add_member, drop_member, replace, join, reconcile, drop_seen, own_entry, is_same, read_or_none,
}
use pipe_os.Cluster.Sorted.{has-sort, sort-sort, bundle_of-sort}

module _ (fingerprint : Text → Text) (is_authority : Text → Bool) (digest : Text → Text)
    (b : Box) where
  abbrev save : Doc → Files → Files
  save = write fingerprint is_authority digest b

  abbrev StatusLike : Option Status → Doc → Type 0
  StatusLike none d = ⊥
  StatusLike (some st) d = (st.cl ≡ d.id) × (st.h ≡ members_hash fingerprint is_authority digest d)

  -- The Machine is a member of its own list; the bundle has the certificates of just these members,
  -- and what it publishes is the cluster's id and the hash of the list.
  pub record Agrees (w : Files) (d : Doc) : Type 0 where
    pub has_self : has b.self d.members ≡ true
    pub bundled : w.bundle ≡ bundle_of d.members
    pub published : StatusLike w.status d

  abbrev pub Good : Files → Type 0
  Good w = elim w.stored [ absent ↦ Unit {0} | broken ↦ Unit {0} | doc d ↦ Agrees w d ]

  members_hash-sort :
      (d : Doc)
      → members_hash fingerprint is_authority digest (record d { members = sort d.members })
        ≡ members_hash fingerprint is_authority digest d
  unfolding members_hash
  members_hash-sort d = rw (sort-sort d.members) refl

  save-Good : (d : Doc) (w : Files) → has b.self d.members ≡ true → Good (save d w)
  unfolding write
  save-Good d w h = record {
    has_self = has-sort b.self d.members ∙ h;
    bundled = sym (bundle_of-sort d.members);
    published = (refl, sym (members_hash-sort d));
  }

  -- The files are as they were, or as `write` left them for a list with the Machine in it.
  pub data Saved (w : Files) (w' : Files) : Type 0 where
    kept : w' ≡ w → Saved w w'
    saved : (d : Doc) → w' ≡ save d w → has b.self d.members ≡ true → Saved w w'

  pub data Ensures {A : Type 0} (w : Files) : Outcome (A × Files) → Type 0 where
    raises : (e : ClusterError) → Ensures w (err e)
    returns : (r : A × Files) → Saved w r.1 → Ensures w (ok r)

  bind-Ensures :
      {A B : Type 0} (w : Files) (m : Outcome A) (f : A → Outcome (B × Files))
      → ((a : A) → m ≡ ok a → Ensures w (f a))
      → Ensures w (m >>= f)
  bind-Ensures w (ok a) f h = h a refl
  bind-Ensures w (err e) f h = raises e

  if-Ensures :
      {A : Type 0} (w : Files) (c : Bool) (x y : Outcome (A × Files))
      → (c ≡ true → Ensures w x)
      → (c ≡ false → Ensures w y)
      → Ensures w (if c then x else y)
  if-Ensures w true x y h k = h refl
  if-Ensures w false x y h k = k refl

  pub Ensures-ok :
      {A : Type 0} (w : Files) (r : Outcome (A × Files)) (a : A) (w' : Files)
      → Ensures w r
      → r ≡ ok (a, w')
      → Saved w w'
  Ensures-ok w r a w' (raises e) q = absurd (ground arith)
  Ensures-ok w r a w' (returns x s) q =
      let same : x.1 ≡ w' = ground (arith, q) in subst (Saved w) same s

  pub Saved-Good : (w w' : Files) → Good w → Saved w w' → Good w'
  Saved-Good w w' g (kept e) = subst Good (sym e) g
  Saved-Good w w' g (saved d e h) = subst Good (sym e) (save-Good d w h)

  has-alone : (m : Member) → has b.self ((b.self, m) ∷ []) ≡ true
  unfolding has get
  has-alone m = ground (arith, text_eq_self b.self)

  start-Ensures :
      (name fresh : Text) (now : ℕ) (w : Files)
      → Ensures w (start fingerprint is_authority digest b name fresh now w)
  unfolding start
  start-Ensures name fresh now w =
      bind-Ensures w (self_entry b name now) _ (λ m e. returns _ (saved _ refl (has-alone m)))

  pub init-Ensures :
      (name : Text) (force : Bool) (fresh : Text) (now : ℕ) (w : Files)
      → Ensures w (init fingerprint is_authority digest b name force fresh now w)
  unfolding init
  init-Ensures name force fresh now w =
      bind-Ensures w (if force then ok (read_or_none w.stored) else read w.stored) _ λ existing e.
        if-Ensures w (is_some existing && not force) (err already_in_cluster)
          (start fingerprint is_authority digest b name fresh now w)
          (λ _. raises already_in_cluster) (λ _. start-Ensures name fresh now w)

  -- A document that was read has the Machine among its members.
  read-has :
      (w : Files) (found : Option Doc) (d : Doc)
      → Good w
      → read w.stored ≡ ok found
      → found ≡ some d
      → has b.self d.members ≡ true
  unfolding read
  read-has w found d g e f = by_file w.stored refl
    where
      by_file : (s : Stored) → w.stored ≡ s → has b.self d.members ≡ true
      by_file absent q = absurd (ground arith)
      by_file broken q = absurd (ground arith)
      by_file (doc x) q = ground (arith, q, e, f, g)

  need-eq-ok :
      (found : Option Doc) (d : Doc)
      → need fingerprint is_authority digest b found ≡ ok d
      → found ≡ some d
  need-eq-ok none d e = ground arith
  need-eq-ok (some x) d e = ground arith

  pub add_member-Ensures :
      (box_id ca name : Text) (now : ℕ) (w : Files)
      → Good w
      → Ensures w (add_member fingerprint is_authority digest b box_id ca name now w)
  unfolding add_member
  add_member-Ensures box_id ca name now w g = bind-Ensures w (read w.stored) _ λ found e.
      bind-Ensures w _ _ λ d e'.
        let m : Member = record { ca = ca; name = name; added = now } in
        let d' : Doc = record d { members = set box_id m d.members } in
        let here = read-has w found d g e (need-eq-ok found d e') in
        if-Ensures w (is_empty (fingerprint ca) || not (is_authority ca)) (err not_an_authority)
          (ok (d', save d' w)) (λ _. raises not_an_authority)
          (λ _.
            returns (d', save d' w)
              (saved d' refl (ground (arith, here, has-set b.self box_id m d.members))))

  pub drop_member-Ensures :
      (target : Text) (w : Files)
      → Good w
      → Ensures w (drop_member fingerprint is_authority digest b target w)
  unfolding drop_member
  drop_member-Ensures target w g = bind-Ensures w (read w.stored) _ λ found e.
      bind-Ensures w _ _ λ d e'. bind-Ensures w (member_id d.members target) _ λ box_id e''.
        let d' : Doc = record d { members = del box_id d.members } in
        let here = read-has w found d g e (need-eq-ok found d e') in
        if-Ensures w (text_eq box_id b.self) (err not_itself) (ok (d', save d' w))
          (λ _. raises not_itself)
          (λ other.
            returns (d', save d' w)
              (saved d' refl (ground (arith, here, other, has-del b.self box_id d.members))))

  pub replace-Ensures :
      (incoming : Option Doc) (fresh : Text) (now : ℕ) (w : Files)
      → Ensures w (replace fingerprint is_authority digest b incoming fresh now w)
  unfolding replace
  replace-Ensures incoming fresh now w =
      bind-Ensures w (valid_doc fingerprint is_authority digest incoming) _ λ d e.
        bind-Ensures w (read w.stored) _ λ mine e'.
          let d' : Doc = record {
            id = d.id;
            created = some (or_now d.created now);
            members = d.members;
          } in
          elim (Bool-cases (is_other fingerprint is_authority digest b mine d)) [
            | inl foreign ↦ rw foreign (returns (other_cluster, w) (kept refl))
            | inr ours ↦ rw ours (elim (Bool-cases (has b.self d.members)) [
              | inr unlisted ↦ rw unlisted (
                  bind-Ensures w (own_entry fingerprint is_authority digest b mine now) _
                    λ m e''. returns _ (saved _ refl (has-alone m)))
              | inl listed ↦ rw listed (
                  bind-Ensures w (is_same fingerprint is_authority digest b mine d) _
                    λ unchanged e''.
                      if-Ensures w unchanged (ok (same, w)) (ok (taken, save d' w))
                        (λ _. returns (same, w) (kept refl))
                        (λ _. returns (taken, save d' w) (saved d' refl listed)))
            ])
          ]

  pub join-Ensures :
      (incoming : Option Doc) (name : Text) (now : ℕ) (w : Files)
      → Ensures w (join fingerprint is_authority digest b incoming name now w)
  unfolding join
  join-Ensures incoming name now w =
      bind-Ensures w (valid_doc fingerprint is_authority digest incoming) _ λ d e.
        elim (Bool-cases (is_taken fingerprint is_authority digest b (read_or_none w.stored) d)) [
          | inl busy ↦ rw busy (raises elsewhere)
          | inr free ↦ rw free (
              bind-Ensures w (self_entry b name now) _ λ m e'. returns _ (
                saved
                  (record {
                    id = d.id;
                    created = some (or_now d.created now);
                    members = set b.self m d.members;
                  })
                  refl (ground (arith, has-set b.self b.self m d.members, text_eq_self b.self))))
        ]

  drop_seen-has :
      (id : Text) (seen : Seen) (ms : Dict Member) (dropped : List Text)
      → has b.self (drop_seen fingerprint is_authority digest b id seen ms dropped).0
        ≡ has b.self ms
  unfolding drop_seen
  drop_seen-has id [] ms dropped = refl
  drop_seen-has id ((key, cl) ∷ seen) ms dropped = ground (
    arith,
    drop_seen-has id seen (del key ms) (dropped ++ key ∷ []),
    drop_seen-has id seen ms dropped,
    has-del b.self key ms,
  )

  pub reconcile-Ensures :
      (seen : Seen) (w : Files)
      → Good w
      → Ensures w (reconcile fingerprint is_authority digest b seen w)
  unfolding reconcile
  reconcile-Ensures seen w g = bind-Ensures w (read w.stored) _ reconciled
    where
      reconciled :
          (found : Option Doc)
          → read w.stored ≡ ok found
          → Ensures w (elim found [
            | none ↦ ok ([], w)
            | some d ↦
                (let (ms, dropped) =
                    drop_seen fingerprint is_authority digest b d.id seen d.members [] in
                  ok (dropped, if is_empty dropped then w else save (record d { members = ms }) w))
          ])
      reconciled none e = returns _ (kept refl)
      reconciled (some d) e =
          let (ms, dropped) = drop_seen fingerprint is_authority digest b d.id seen d.members [] in
          elim (Bool-cases (is_empty dropped)) [
            | inl quiet ↦ returns _ (kept (rw quiet refl))
            | inr some_gone ↦ returns _ (
                saved (record d { members = ms }) (rw some_gone refl)
                  (drop_seen-has d.id seen d.members [] ∙ read-has w (some d) d g e refl))
          ]
