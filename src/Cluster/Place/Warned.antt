-- ===== src/Cluster/Place/Warned.antt =====
-- `start_agent` of cluster.py: who took an agent, and the warnings its answer carries.
use mathlib.Core.Path.{subst}
use mathlib.Core.List.{Memᴰ}
use mathlib.Core.List.Memᴰ.{head, tail}
use pipe_os.Prelude.{
  ℕ, ◌≡◌, ◌⊎◌, inl, inr, refl, sym, ap, ◌∙◌, Bool, true, false, Option, none, some, Option-cases,
  List, [], ◌∷◌, ◌++◌, is_empty, if◌then◌else◌, Bool-cases, Text, text_eq, arith, codes,
}
use pipe_os.Prelude.Fallible.{ok, err}
use pipe_os.Cluster.{Outcome, norm}
use pipe_os.Cluster.Place.{
  Seat, Named, Spec, Taken, Started, started, did_not_take, no_idle_member, not_a_members_answer,
  Call, warnings, lost_cap, lost_needs, Warning, uncapped, ungated, pick_idlest, hit, at_member,
  finish, start_agent,
}

started-injective : {a b : Taken} → started a ≡ started b → a ≡ b
started-injective h = cc

Memᴰ-last : {w : Warning} (ws : List Warning) → Memᴰ w (ws ++ (w ∷ []))
Memᴰ-last [] = head refl
Memᴰ-last (v ∷ ws) = tail (Memᴰ-last ws)

module _ (local_start : Spec → ℕ × Taken) (call : Call) (me : Text) (s : Spec) where
  -- An answer of 200: of this Machine where it was chosen itself, or to the call of the chosen member,
  -- with the certificate of some member, which the code does not compare with the chosen one.
  pub data Agreed : Text → Taken → Type 0 where
    here :
        {mid : Text} {out : Taken}
        → text_eq mid me ≡ true
        → local_start s ≡ (200, out)
        → Agreed mid out
    there :
        {mid : Text} {out : Taken} {who : Text}
        → text_eq mid me ≡ false
        → call mid s ≡ ok (200, out, some who)
        → Agreed mid out

  -- An agent that was started: whom it was asked of, what was answered and reported, and the warnings.
  pub record Placed (per_cpu : ℕ → ℕ → ℕ) (view : List Named) (page : List Seat) (on : Text)
      (a : Taken) : Type 0 where
    pub chosen :
        if a.picked
        then (pick_idlest per_cpu page ≡ some a.on)
        else (hit (norm on) view ≡ some a.on)
    pub asked_for : a.picked ≡ text_eq on (codes "idlest")
    pub out : Taken
    pub agreed : Agreed a.on out
    pub reported : a ≡ record out { on = a.on; picked = a.picked; warning = a.warning }
    pub cap_or_warning : (lost_cap s out ≡ false) ⊎ Memᴰ uncapped a.warning
    pub needs_or_warning : (lost_needs s out ≡ false) ⊎ Memᴰ ungated a.warning

  -- The part of it that the member's answer settles.
  record Finished (idlest : Bool) (mid : Text) (a : Taken) : Type 0 where
    out : Taken
    on : a.on ≡ mid
    picked : a.picked ≡ idlest
    agreed : Agreed mid out
    reported : a ≡ record out { on = a.on; picked = a.picked; warning = a.warning }
    cap_or_warning : (lost_cap s out ≡ false) ⊎ Memᴰ uncapped a.warning
    needs_or_warning : (lost_needs s out ≡ false) ⊎ Memᴰ ungated a.warning

  ends : Bool → Text → Taken → Taken
  ends idlest mid out = record out { on = mid; picked = idlest; warning = warnings s out }

  cap_warned :
      (idlest : Bool) (mid : Text) (out : Taken)
      → (lost_cap s out ≡ false) ⊎ Memᴰ uncapped (ends idlest mid out).warning
  unfolding ends warnings lost_cap
  cap_warned idlest mid out = elim (Bool-cases (lost_cap s out)) [
    | inl lost ↦ inr (elim (Bool-cases (lost_needs s out)) [
      | inl c ↦ rw lost (rw c (head refl))
      | inr c ↦ rw lost (rw c (head refl))
    ])
    | inr kept ↦ inl kept
  ]

  needs_warned :
      (idlest : Bool) (mid : Text) (out : Taken)
      → (lost_needs s out ≡ false) ⊎ Memᴰ ungated (ends idlest mid out).warning
  unfolding ends warnings lost_needs
  needs_warned idlest mid out = elim (Bool-cases (lost_needs s out)) [
    | inl lost ↦ inr (rw lost (Memᴰ-last (if lost_cap s out then uncapped ∷ [] else out.warning)))
    | inr kept ↦ inl kept
  ]

  finish-Finished :
      (idlest : Bool) (mid : Text) (st : ℕ) (out a : Taken)
      → (st ≡ 200 → Agreed mid out)
      → finish idlest mid s st out ≡ started a
      → Finished idlest mid a
  unfolding finish ends
  finish-Finished idlest mid st out a who e =
      let good : st ≡ 200 = ground (arith, e) in
      let same : ends idlest mid out ≡ a = started-injective (rw good at e) in
      subst (Finished idlest mid) same (record {
        out = out;
        on = refl;
        picked = refl;
        agreed = who good;
        reported = refl;
        cap_or_warning = cap_warned idlest mid out;
        needs_or_warning = needs_warned idlest mid out;
      })

  at_member-Finished :
      (idlest : Bool) (mid : Text) (a : Taken)
      → at_member local_start call me idlest mid s ≡ started a
      → Finished idlest mid a
  unfolding at_member
  at_member-Finished idlest mid a e = elim (Bool-cases (text_eq mid me)) [
    | inl own ↦ local (local_start s) refl own (rw own at e)
    | inr other ↦ remote (call mid s) refl other (rw other at e)
  ]
    where
      local :
          (r : ℕ × Taken)
          → local_start s ≡ r
          → text_eq mid me ≡ true
          → finish idlest mid s r.0 r.1 ≡ started a
          → Finished idlest mid a
      local (st, out) q own f =
          finish-Finished idlest mid st out a (λ good. here own (q ∙ ap (λ n. (n, out)) good)) f

      remote :
          (r : Outcome (ℕ × Taken × Option Text))
          → call mid s ≡ r
          → text_eq mid me ≡ false
          → ◌≡◌ {A = Started}
              (elim r [
                | err e ↦ did_not_take
                | ok (st, out, who) ↦ elim who [
                  | none ↦ not_a_members_answer
                  | some w ↦ finish idlest mid s st out
                ]
              ])
              (started a)
          → Finished idlest mid a
      remote (err x) q other f = absurd (ground (arith, f))
      remote (ok (st, out, none)) q other f = absurd (ground (arith, f))
      remote (ok (st, out, some w)) q other f =
          finish-Finished idlest mid st out a
            (λ good. there other (q ∙ ap (λ n. ok (n, out, some w)) good)) f

  placed :
      (per_cpu : ℕ → ℕ → ℕ) (view : List Named) (page : List Seat) (on : Text) (idlest : Bool)
      (mid : Text) (a : Taken)
      → text_eq on (codes "idlest") ≡ idlest
      → (if idlest then (pick_idlest per_cpu page ≡ some mid) else (hit (norm on) view ≡ some mid))
      → Finished idlest mid a
      → Placed per_cpu view page on a
  placed per_cpu view page on idlest mid a how which done = record {
    chosen = rw (done.picked, done.on) which;
    asked_for = done.picked ∙ sym how;
    out = done.out;
    agreed = rw (done.on) done.agreed;
    reported = done.reported;
    cap_or_warning = done.cap_or_warning;
    needs_or_warning = done.needs_or_warning;
  }

  named_id :
      (mid : Text) (a : Taken) (rest : Started)
      → (if is_empty mid then no_idle_member else rest) ≡ started a
      → rest ≡ started a
  named_id mid a rest e = ground (arith, e)

  -- An agent that `start_agent` says it started was asked of the idlest member, or of the first that the
  -- given word names; an answer of 200 came, from this Machine itself where it is the one, or else to the
  -- call of that member and with some member's certificate; that answer is what is reported, and where it
  -- has not taken the cap or the needs list, a warning is added.
  pub start_agent-Placed :
      (per_cpu : ℕ → ℕ → ℕ) (view : List Named) (page : List Seat) (on : Text) (a : Taken)
      → start_agent per_cpu local_start call view page me on s ≡ started a
      → Placed per_cpu view page on a
  unfolding start_agent
  start_agent-Placed per_cpu view page on a e = elim (Bool-cases (text_eq on (codes "idlest"))) [
    | inl yes' ↦ elim (Option-cases (pick_idlest per_cpu page)) [
      | inl nobody ↦ absurd (ground (arith, e, yes', nobody))
      | inr (mid, found) ↦
          placed per_cpu view page on true mid a yes' found
            (at_member-Finished true mid a (named_id mid a _ (rw found at (rw yes' at e))))
    ]
    | inr not' ↦ elim (Option-cases (hit (norm on) view)) [
      | inl nobody ↦ absurd (ground (arith, e, not', nobody))
      | inr (mid, found) ↦
          placed per_cpu view page on false mid a not' found
            (at_member-Finished false mid a (rw found at (rw not' at e)))
    ]
  ]
