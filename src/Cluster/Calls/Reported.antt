-- ===== src/Cluster/Calls/Reported.antt =====
-- cluster.py, what `remove` writes, and whom `push` and `remove` send the list to.
use pipe_os.Prelude.{
  ◌≡◌, refl, ap, ◌∙◌, inl, inr, Bool, true, false, not, ◌&&◌, none, some, [], ◌∷◌, if◌then◌else◌,
  Bool-cases, Text, text_eq, text_eq_iff, text_eq_self, arith,
}
use pipe_os.Prelude.Fallible.{ok}
use pipe_os.Prelude.Dict.{Dict, get, has}
use pipe_os.Cluster.{Member, Doc, doc, Files, Box, write, member_id, sort}
use pipe_os.Cluster.Sorted.{has-sort}
use pipe_os.Cluster.Calls.{Send, Report, report_of, push_to, push}

get-push_to :
    (send : Send) (me : Text) (d : Doc) (key : Text) (ms : Dict Member)
    → get key (push_to send me d ms)
      ≡ (if has key ms && not (text_eq key me) then some (report_of (send key d)) else none)
unfolding push_to has get
get-push_to send me d key [] = refl
get-push_to send me d key ((j, m) ∷ ms) = elim (Bool-cases (text_eq j key)) [
  | inr other ↦ ground (arith, other, get-push_to send me d key ms)
  | inl same ↦
      let here : j ≡ key = (text_eq_iff j key).0 same in
      let at_key : text_eq key key ≡ true = text_eq_self key in
      rw here (elim (Bool-cases (text_eq key me)) [
        | inl own ↦ ground (arith, own, at_key, get-push_to send me d key ms)
        | inr others ↦ ground (arith, others, at_key)
      ])
]

-- `push` has one line for each member of the list but the Machine itself: what sending it the list gave.
pub get-push :
    (send : Send) (me : Text) (d : Doc) (key : Text)
    → get key (push send me d)
      ≡ (if has key d.members && not (text_eq key me) then some (report_of (send key d)) else none)
unfolding push
get-push send me d key =
    get-push_to send me d key (sort d.members)
    ∙ ap (λ c. if c && not (text_eq key me) then some (report_of (send key d)) else none)
        (has-sort key d.members)

module _ (fingerprint : Text → Text) (is_authority : Text → Bool) (digest : Text → Text) (b : Box)
    (send : Send) where
  -- The lists before and after a removal, who was taken off, the files it left, and the lines of the
  -- report.
  pub record Removed (typed box_id : Text) (report : Dict Report) (w w' : Files) : Type 0 where
    pub before : Doc
    pub after : Doc
    pub key : Text
    pub was_stored : w.stored ≡ doc before
    pub found : member_id before.members typed ≡ ok box_id
    pub meant : member_id before.members box_id ≡ ok key
    pub was_member : has key before.members ≡ true
    pub not_self : text_eq key b.self ≡ false
    pub left :
        (j : Text) → get j after.members ≡ (if text_eq key j then none else get j before.members)
    pub now_stored : w' ≡ write fingerprint is_authority digest b after w
    pub told :
        (j : Text)
        → get j report ≡ (
            if has j after.members && not (text_eq j b.self)
            then some (report_of (send j after))
            else none)
