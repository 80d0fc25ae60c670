-- ===== src/Webd/Accounts/Lists.antt =====
-- webd.py, the list of users: enabled admins in it, when one entry is changed, removed or added.
use pipe_os.Prelude.{
  ◌≡◌, refl, inl, inr, Bool, true, false, ◌&&◌, ◌||◌, not, some, List, [], ◌∷◌, ◌++◌, Text, text_eq,
  text_eq_iff, arith, Bool-cases,
}
use pipe_os.Webd.{User}
use pipe_os.Webd.Users.{
  enabled_admin, any_user, find_user, change_user, remove_user, last_admin_guard,
}

pub find_user-name :
    (name : Text) (us : List User) (u : User) → find_user name us ≡ some u → u.name ≡ name
unfolding find_user
find_user-name name [] u h = absurd (ground arith)
find_user-name name (v ∷ us) u h = elim (Bool-cases (text_eq v.name name)) [
  | inl same ↦ ground (arith, text_eq_iff v.name name)
  | inr unlike ↦ find_user-name name us u (ground arith)
]

any_user-other :
    (name : Text) (us : List User)
    → any_user (λ u. not (text_eq u.name name) && enabled_admin u) us ≡ true
    → any_user enabled_admin us ≡ true
unfolding any_user
any_user-other name [] h = h
any_user-other name (u ∷ us) h = ground (arith, any_user-other name us)

module _ (name : Text) (v : User) where
  pub any_user-change_user :
      (us : List User) (u : User)
      → find_user name us ≡ some u
      → (enabled_admin u ≡ true → enabled_admin v ≡ true)
      → any_user enabled_admin us ≡ true
      → any_user enabled_admin (change_user name v us) ≡ true
  unfolding find_user any_user change_user
  any_user-change_user [] u found keeps h = h
  any_user-change_user (w ∷ us) u found keeps h = elim (Bool-cases (text_eq w.name name)) [
    | inl same ↦ ground arith
    | inr unlike ↦ ground (arith, any_user-change_user us u)
  ]

  -- Another account is there still.
  pub other_admin-change_user :
      (us : List User)
      → last_admin_guard us name ≡ false
      → any_user enabled_admin (change_user name v us) ≡ true
  unfolding last_admin_guard any_user change_user
  other_admin-change_user [] h = absurd (ground arith)
  other_admin-change_user (w ∷ us) h = elim (Bool-cases (text_eq w.name name)) [
    | inl same ↦ ground (arith, any_user-other name us)
    | inr unlike ↦ ground (arith, other_admin-change_user us)
  ]

module _ (name : Text) where
  pub any_user-remove_user :
      (us : List User) (u : User)
      → find_user name us ≡ some u
      → enabled_admin u ≡ false
      → any_user enabled_admin us ≡ true
      → any_user enabled_admin (remove_user name us) ≡ true
  unfolding find_user any_user remove_user
  any_user-remove_user [] u found keeps h = h
  any_user-remove_user (w ∷ us) u found keeps h = elim (Bool-cases (text_eq w.name name)) [
    | inl same ↦ ground arith
    | inr unlike ↦ ground (arith, any_user-remove_user us u)
  ]

  pub other_admin-remove_user :
      (us : List User)
      → last_admin_guard us name ≡ false
      → any_user enabled_admin (remove_user name us) ≡ true
  unfolding last_admin_guard any_user remove_user
  other_admin-remove_user [] h = absurd (ground arith)
  other_admin-remove_user (w ∷ us) h = elim (Bool-cases (text_eq w.name name)) [
    | inl same ↦ ground (arith, any_user-other name us)
    | inr unlike ↦ ground (arith, other_admin-remove_user us)
  ]

pub any_user-append :
    (p : User → Bool) (us vs : List User) → any_user p (us ++ vs) ≡ (any_user p us || any_user p vs)
unfolding any_user
any_user-append p [] vs = refl
any_user-append p (u ∷ us) vs = ground (arith, any_user-append p us vs)
