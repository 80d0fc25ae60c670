-- ===== src/Webd/Accounts/Parts.antt =====
-- webd.py, the parts of `api_users_set`: what each leaves of the stores and of the account.
use pipe_os.Prelude.{
  ◌≡◌, inl, inr, true, not, Option, none, some, List, Text, is_empty, text_eq, length, ltb, arith,
  Bool-cases, Option-cases, if◌then◌else◌,
}
use pipe_os.Webd.{User, Session, Box, Request, Tools}
use pipe_os.Webd.Ending.{Ends}
use pipe_os.Webd.Passwords.{hash_password}
use pipe_os.Webd.Users.{apply_terminals}
use pipe_os.Webd.Callers.{user_admin_guard}
use pipe_os.Webd.SignIn.{claimed}
use pipe_os.Webd.Accounts.Sound.{is_marked, Kept, hash_password-is_marked}
use pipe_os.Webd.Accounts.{Flag, switches, set_disabled, set_password, set_ssh_key, set_term_pass}

pub user_admin_guard-Kept :
    (rq : Request) (b : Box) → Ends (Kept b) (λ s c. Kept b c) (user_admin_guard rq b)
unfolding user_admin_guard claimed
user_admin_guard-Kept rq b = ground arith

pub set_disabled-Kept :
    (rq : Request) (f : Option Flag) (u : User) (b : Box)
    → Ends
        (Kept b)
        (λ v c.
          Kept b c
          × (v.name ≡ u.name)
          × (v.role ≡ u.role)
          × (v.disabled ≡ (if switches f u.disabled then not u.disabled else u.disabled))
          × (v.share ≡ u.share)
          × (is_marked u.hash ≡ true → is_marked v.hash ≡ true))
        (set_disabled rq f u b)
unfolding set_disabled claimed
set_disabled-Kept rq f u b = ground arith

pub set_password-Kept :
    (t : Tools) (rq : Request) (sess : Session) (pw : Text) (u : User) (b : Box)
    → Ends
        (Kept b)
        (λ r c.
          Kept b c
          × (r.0.name ≡ u.name)
          × (r.0.role ≡ u.role)
          × (r.0.disabled ≡ u.disabled)
          × (r.0.share ≡ u.share)
          × (is_marked u.hash ≡ true → is_marked r.0.hash ≡ true))
        (set_password t rq sess pw u b)
unfolding set_password claimed
set_password-Kept t rq sess pw u b = elim (Bool-cases (is_empty pw)) [
  | inl kept ↦ ground arith
  | inr asked ↦ elim (Option-cases (hash_password t rq.salt pw)) [
    | inl failed ↦ ground arith
    | inr (h, made) ↦ elim (Bool-cases (ltb (length pw) 8)) [
      | inl short ↦ ground arith
      | inr long ↦ elim (Bool-cases (text_eq u.name sess.user)) [
        | inl own ↦
            rw (asked, long, made, own)
              (ground (arith, hash_password-is_marked t rq.salt pw h made))
        | inr else_ ↦
            rw (asked, long, made, else_)
              (ground (arith, hash_password-is_marked t rq.salt pw h made))
      ]
    ]
  ]
]

pub set_ssh_key-Kept :
    (t : Tools) (rq : Request) (key : Text) (u : User) (b : Box)
    → Ends (Kept b) (λ r c. Kept b c) (set_ssh_key t rq key u b)
unfolding set_ssh_key claimed
set_ssh_key-Kept t rq key u b = ground arith

pub set_term_pass-Kept :
    (t : Tools) (rq : Request) (pw : Option Text) (u : User) (b : Box)
    → Ends
        (Kept b)
        (λ v c.
          Kept b c
          × (v.name ≡ u.name)
          × (v.role ≡ u.role)
          × (v.disabled ≡ u.disabled)
          × (v.share ≡ u.share)
          × (is_marked u.hash ≡ true → is_marked v.hash ≡ true))
        (set_term_pass t rq pw u b)
unfolding set_term_pass claimed
set_term_pass-Kept t rq none u b = ground arith
set_term_pass-Kept t rq (some pw) u b = ground arith

pub apply_terminals-Kept :
    (us : List User) (b : Box) → Ends (λ c. ⊥) (λ r c. Kept b c) (apply_terminals us b)
unfolding apply_terminals claimed
apply_terminals-Kept us b = ground arith
