-- ===== src/Cluster/Invariant.antt =====
-- cluster.py: the member list and the files that are written beside it, over any edits.
use pipe_os.Prelude.{ℕ, ◌≡◌, Bool, Option, List, Text}
use pipe_os.Prelude.Fallible.{ok}
use pipe_os.Cluster.{Member, Doc, Files, Box}
use pipe_os.Cluster.Edits.{Taken, Seen, init, add_member, drop_member, replace, join, reconcile}
use pipe_os.Cluster.Saved.{
  Good, Saved, Ensures-ok, Saved-Good, init-Ensures, add_member-Ensures, drop_member-Ensures,
  replace-Ensures, join-Ensures, reconcile-Ensures,
}

module _ (fingerprint : Text → Text) (is_authority : Text → Bool) (digest : Text → Text)
    (b : Box) where
  -- One edit that did not raise.
  pub data Edit (w : Files) (w' : Files) : Type 0 where
    inits :
        (name : Text) (force : Bool) (fresh : Text) (now : ℕ) (d : Doc)
        → init fingerprint is_authority digest b name force fresh now w ≡ ok (d, w')
        → Edit w w'
    adds :
        (box_id ca name : Text) (now : ℕ) (d : Doc)
        → add_member fingerprint is_authority digest b box_id ca name now w ≡ ok (d, w')
        → Edit w w'
    drops :
        (target : Text) (d : Doc)
        → drop_member fingerprint is_authority digest b target w ≡ ok (d, w')
        → Edit w w'
    replaces :
        (incoming : Option Doc) (fresh : Text) (now : ℕ) (t : Taken)
        → replace fingerprint is_authority digest b incoming fresh now w ≡ ok (t, w')
        → Edit w w'
    joins :
        (incoming : Option Doc) (name : Text) (now : ℕ) (m : Member)
        → join fingerprint is_authority digest b incoming name now w ≡ ok (m, w')
        → Edit w w'
    reconciles :
        (seen : Seen) (dropped : List Text)
        → reconcile fingerprint is_authority digest b seen w ≡ ok (dropped, w')
        → Edit w w'

  -- The files after any number of edits.
  pub data Edited (w : Files) : Files → Type 0 where
    here : Edited w w
    next : {v u : Files} → Edited w v → Edit v u → Edited w u

  Edit-Saved :
      (w w' : Files)
      → Good fingerprint is_authority digest b w
      → Edit w w'
      → Saved fingerprint is_authority digest b w w'
  Edit-Saved w w' g (inits name force fresh now d q) =
      Ensures-ok fingerprint is_authority digest b w _ d w'
        (init-Ensures fingerprint is_authority digest b name force fresh now w) q
  Edit-Saved w w' g (adds box_id ca name now d q) =
      Ensures-ok fingerprint is_authority digest b w _ d w'
        (add_member-Ensures fingerprint is_authority digest b box_id ca name now w g) q
  Edit-Saved w w' g (drops target d q) =
      Ensures-ok fingerprint is_authority digest b w _ d w'
        (drop_member-Ensures fingerprint is_authority digest b target w g) q
  Edit-Saved w w' g (replaces incoming fresh now t q) =
      Ensures-ok fingerprint is_authority digest b w _ t w'
        (replace-Ensures fingerprint is_authority digest b incoming fresh now w) q
  Edit-Saved w w' g (joins incoming name now m q) =
      Ensures-ok fingerprint is_authority digest b w _ m w'
        (join-Ensures fingerprint is_authority digest b incoming name now w) q
  Edit-Saved w w' g (reconciles seen dropped q) =
      Ensures-ok fingerprint is_authority digest b w _ dropped w'
        (reconcile-Ensures fingerprint is_authority digest b seen w g) q

  -- After any edits of files that were good, as those of a Machine in no cluster are: whenever the
  -- member list is stored, the Machine itself is on it, the bundle has the certificates of just its
  -- members, and the status has the cluster's id and the list's hash.
  pub Edited-Good :
      {w w' : Files}
      → Good fingerprint is_authority digest b w
      → Edited w w'
      → Good fingerprint is_authority digest b w'
  Edited-Good g here = g
  Edited-Good {w} g (next {v} {u} r s) =
      let before = Edited-Good g r in
      Saved-Good fingerprint is_authority digest b v u before (Edit-Saved v u before s)
