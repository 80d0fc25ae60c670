-- ===== src/Ledger/Cap/Messages.antt =====
-- The messages of ledger.py's caps: a second `enforce_cap` on the same figures sends none.
use pipe_os.Prelude.{
  ℕ, ◌≡◌, refl, ap, ◌∙◌, Bool, true, false, ◌==◌, inl, inr, Bool-cases, Option, if◌then◌else◌, Text,
  text_eq_self, codes, arith,
}
use pipe_os.Ledger.Money.{reached, warns}
use pipe_os.Ledger.Pause.{Scope, Entry}
use pipe_os.Ledger.Cap.{
  Message, World, Month, scope_paused, scope_warned, marker, prefixed, exists, touch, dm, once,
  warn_once, scope_hit,
}

-- No marker of `w` is missing in `w'`.
abbrev pub Grows : World → World → Type 0
Grows w w' = (n : Text) → exists n w.markers ≡ true → exists n w'.markers ≡ true

touch-Grows : (name : Text) (w : World) → Grows w (touch name w)
unfolding touch exists
touch-Grows name w n h = ground (arith, h)

touch-exists : (name : Text) (w : World) → exists name (touch name w).markers ≡ true
unfolding touch exists
touch-exists name w = ground (arith, text_eq_self name)

pub once-Grows : (name : Text) (m : Message) (w : World) → Grows w (once name m w)
unfolding once dm
once-Grows name m w n h = ground (arith, h, touch-Grows name (dm m w) n)

pub once-exists :
    (name : Text) (m : Message) (w : World) → exists name (once name m w).markers ≡ true
unfolding once
once-exists name m w = ground (arith, touch-exists name (dm m w))

pub once-settled :
    (name : Text) (m : Message) (w : World) → exists name w.markers ≡ true → once name m w ≡ w
unfolding once
once-settled name m w h = rw h refl

warn_once-Grows :
    (name : Text) (full : Bool) (m : Message) (w : World) → Grows w (warn_once name full m w).1
unfolding warn_once dm
warn_once-Grows name full m w n h =
    ground (arith, h, touch-Grows name (dm m w) n, touch-Grows name w n)

warn_once-exists :
    (name : Text) (full : Bool) (m : Message) (w : World)
    → exists name (warn_once name full m w).1.markers ≡ true
unfolding warn_once
warn_once-exists name full m w = ground (arith, touch-exists name (dm m w), touch-exists name w)

warn_once-settled :
    (name : Text) (full : Bool) (m : Message) (w : World)
    → exists name w.markers ≡ true
    → (warn_once name full m w).1 ≡ w
unfolding warn_once
warn_once-settled name full m w h = rw h refl

abbrev paused_marker : Scope → Month → Text
paused_marker s now = marker (prefixed s (codes "paused")) now.month

abbrev warned_marker : Scope → Month → Text
warned_marker s now = marker (prefixed s (codes "warned")) now.month

-- The markers of every threshold that is reached are there.
pub record Settled (s : Scope) (cap spent : ℕ) (now : Month) (w : World) : Type 0 where
  at_full :
      (cap == 0) ≡ false → reached cap spent ≡ true → exists (paused_marker s now) w.markers ≡ true
  at_warning :
      (cap == 0) ≡ false → warns cap spent ≡ true → exists (warned_marker s now) w.markers ≡ true

pub Settled-Grows :
    (s : Scope) (cap spent : ℕ) (now : Month) (w w' : World)
    → Settled s cap spent now w
    → Grows w w'
    → Settled s cap spent now w'
Settled-Grows s cap spent now w w' h g = record {
  at_full = λ c r. g (paused_marker s now) (h.at_full c r);
  at_warning = λ c r. g (warned_marker s now) (h.at_warning c r);
}

-- The world behind the test for a pause.
abbrev after_pause : Scope → ℕ → ℕ → Month → World → World
after_pause s cap spent now w =
    if reached cap spent then once (paused_marker s now) (scope_paused s cap spent) w else w

after_pause-Grows :
    (s : Scope) (cap spent : ℕ) (now : Month) (w : World) → Grows w (after_pause s cap spent now w)
after_pause-Grows s cap spent now w n h =
    ground (arith, h, once-Grows (paused_marker s now) (scope_paused s cap spent) w n)

-- The world behind the test for a warning.
abbrev after_warning : Scope → ℕ → ℕ → Month → World → World
after_warning s cap spent now w =
    if warns cap spent
    then (warn_once (warned_marker s now) (reached cap spent) (scope_warned s cap spent) w).1
    else w

after_warning-Grows :
    (s : Scope) (cap spent : ℕ) (now : Month) (w : World)
    → Grows w (after_warning s cap spent now w)
after_warning-Grows s cap spent now w n h = ground (
  arith,
  h,
  warn_once-Grows (warned_marker s now) (reached cap spent) (scope_warned s cap spent) w n,
)

abbrev pub after_scope : Scope → ℕ → ℕ → Month → World → World
after_scope s cap spent now w =
    if cap == 0 then w else after_warning s cap spent now (after_pause s cap spent now w)

pub after_scope-Grows :
    (s : Scope) (cap spent : ℕ) (now : Month) (w : World) → Grows w (after_scope s cap spent now w)
after_scope-Grows s cap spent now w n h = elim (Bool-cases (cap == 0)) [
  | inl off ↦ rw off h
  | inr on ↦ rw on (
      after_warning-Grows s cap spent now (after_pause s cap spent now w) n
        (after_pause-Grows s cap spent now w n h))
]

pub after_scope-Settled :
    (s : Scope) (cap spent : ℕ) (now : Month) (w : World)
    → Settled s cap spent now (after_scope s cap spent now w)
after_scope-Settled s cap spent now w = record {
  at_full = λ c r. rw c (
      after_warning-Grows s cap spent now (after_pause s cap spent now w) (paused_marker s now)
        (rw r (once-exists (paused_marker s now) (scope_paused s cap spent) w)));
  at_warning = λ c r. rw c (
      rw r (
        warn_once-exists (warned_marker s now) (reached cap spent) (scope_warned s cap spent)
          (after_pause s cap spent now w)));
}

after_pause-same :
    (s : Scope) (cap spent : ℕ) (now : Month) (w : World)
    → (cap == 0) ≡ false
    → Settled s cap spent now w
    → after_pause s cap spent now w ≡ w
after_pause-same s cap spent now w c h = elim (Bool-cases (reached cap spent)) [
  | inl full ↦
      rw full (once-settled (paused_marker s now) (scope_paused s cap spent) w (h.at_full c full))
  | inr open_still ↦ rw open_still refl
]

after_warning-same :
    (s : Scope) (cap spent : ℕ) (now : Month) (w : World)
    → (cap == 0) ≡ false
    → Settled s cap spent now w
    → after_warning s cap spent now w ≡ w
after_warning-same s cap spent now w c h = elim (Bool-cases (warns cap spent)) [
  | inl near ↦ rw near (
      warn_once-settled (warned_marker s now) (reached cap spent) (scope_warned s cap spent) w
        (h.at_warning c near))
  | inr far ↦ rw far refl
]

pub after_scope-same :
    (s : Scope) (cap spent : ℕ) (now : Month) (w : World)
    → Settled s cap spent now w
    → after_scope s cap spent now w ≡ w
after_scope-same s cap spent now w h = elim (Bool-cases (cap == 0)) [
  | inl off ↦ rw off refl
  | inr on ↦ rw on (
      ap (λ v. after_warning s cap spent now v) (after_pause-same s cap spent now w on h)
      ∙ after_warning-same s cap spent now w on h)
]

module _ (usd2 : ℕ → Text) where
  pub scope_hit-world :
      (s : Scope) (cap spent : ℕ) (now : Month) (before : Option Entry) (w : World)
      → (scope_hit usd2 s cap spent now before w).2 ≡ after_scope s cap spent now w
  unfolding scope_hit
  scope_hit-world s cap spent now before w = elim (Bool-cases (cap == 0)) [
    | inl off ↦ rw off refl
    | inr on ↦
        rw on
          (elim (Bool-cases (warns cap spent)) [ inl near ↦ rw near refl | inr far ↦ rw far refl ])
  ]
