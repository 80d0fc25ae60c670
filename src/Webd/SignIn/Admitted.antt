-- ===== src/Webd/SignIn/Admitted.antt =====
-- webd.py, `api_login`: whom it admits, and with what session.
use pipe_os.Prelude.{
  ℕ, ◌≡◌, refl, sym, ap, ◌∙◌, inl, inr, ◌≤◌, ◌+◌, true, false, ◌||◌, not, Option, none, some, Text,
  text_eq_self, arith, Bool-cases, if◌then◌else◌,
}
use mathlib.Core.Path.{subst}
use pipe_os.Prelude.Fallible.{ok}
use pipe_os.Webd.{Role, role_or_admin, fields, User, Box, Request, Tools}
use pipe_os.Webd.Ending.{Ends, weaken-Ends, run_on-Ends}
use pipe_os.Webd.Sessions.{session_idle_s, matches_token, session_of, new_session, valid_session}
use pipe_os.Webd.Sessions.Dropped.{valid_session-new_session}
use pipe_os.Webd.Passwords.{check_hash}
use pipe_os.Webd.Users.{read_users, find_user, write_users}
use pipe_os.Webd.SignIn.{user_name, claimed, signs_in, seed_users, admit, login}

-- An account that is neither disabled nor share-only, with this password.
abbrev pub SignsIn : Tools → Text → User → Type 0
SignsIn t pw u = (u.disabled ≡ false) × (u.share ≡ false) × (check_hash t pw u.hash ≡ true)

module _ (t : Tools) (rq : Request) where
  pub signs_in-some :
      (pw : Text) (o : Option User) (u : User)
      → signs_in t rq pw o ≡ some u
      → (o ≡ some u) × SignsIn t pw u
  unfolding signs_in
  signs_in-some pw none u h = absurd (ground arith)
  signs_in-some pw (some v) u h =
      elim (Bool-cases (v.disabled || v.share || not (check_hash t pw v.hash))) [
        | inl refused ↦ absurd (ground arith)
        | inr passed ↦
            let same : v ≡ u =
              some-injective (sym (ap (λ c. if c then none else some v) passed) ∙ h) in
            (ap some same, subst (SignsIn t pw) same (ground arith, ground arith, ground arith))
      ]
    where
      some-injective : {a b : User} → some a ≡ some b → a ≡ b
      some-injective e = cc

  seed_users-sessions :
      (name : Text) (u : User) (b : Box)
      → Ends (λ c. ⊥) (λ r c. c.sessions ≡ b.sessions) (seed_users t rq name u b)
  unfolding seed_users write_users
  seed_users-sessions name u b = ground arith

  -- How `admit` answers.
  abbrev Answered : Text → Box → User → Text × Text × Role → Box → Type 0
  Answered name b u r c =
      (r ≡ (rq.token, name, role_or_admin u.role))
      × (c.sessions ≡ new_session rq.token name (role_or_admin u.role) rq.now b.sessions)

  admit-Answered :
      (name : Text) (o : Option User) (b : Box)
      → Ends
          (λ c. c.sessions ≡ b.sessions)
          (λ r c. (u : User) × (o ≡ some u) × Answered name b u r c)
          (admit t rq name o b)
  unfolding admit
  admit-Answered name none b = refl
  admit-Answered name (some u) b =
      run_on-Ends _ (λ r c. c.sessions ≡ b.sessions) _ (seed_users t rq name u _) _
        (weaken-Ends (λ c. ⊥) _ _ _ (seed_users t rq name u _) (λ c no_. absurd no_) (λ r c e. e)
          (seed_users-sessions name u _))
        (λ r c e. (u, refl, (refl, ap (new_session rq.token name (role_or_admin u.role) rq.now) e)))

  login-Answered :
      (username pw : Text) (b : Box)
      → Ends
          (λ c. c.sessions ≡ b.sessions)
          (λ r c.
            (u : User) × (signs_in t rq pw (find_user (user_name username) (read_users b)) ≡ some u)
            × Answered (user_name username) b u r c)
          (login t rq username pw b)
  unfolding login
  login-Answered username pw b = elim (Bool-cases (claimed b)) [
    | inr open_ ↦ rw open_ refl
    | inl taken ↦ rw taken (admit-Answered (user_name username) _ b)
  ]

  -- A login that succeeds is that of an account with the name, neither disabled nor share-only and with
  -- this password; its token is answered with the name and the account's role while it is not idle for
  -- a day.
  pub login-valid_session :
      (username pw tok name : Text) (role : Role) (b c : Box) (later : ℕ)
      → login t rq username pw b ≡ (ok (tok, name, role), c)
      → matches_token rq.token ≡ true
      → later ≤ rq.now + session_idle_s
      → (u : User) × (find_user name (read_users b) ≡ some u)
        × SignsIn t pw u
        × ((valid_session tok later c.sessions).0
            ≡ some (session_of (fields name (role_or_admin u.role))))
  login-valid_session username pw tok name role b c later done good soon =
      let (u, known, (answer, sessions)) = subst (Ends _ _) done (login-Answered username pw b) in
      let (there, fit) = signs_in-some pw (find_user (user_name username) (read_users b)) u known in
      let named : name ≡ user_name username = ap (λ r. r.1) answer in
      let drawn : tok ≡ rq.token = ap (λ r. r.0) answer in
      let role_ = role_or_admin u.role in
      (
        u,
        rw named there,
        fit,
        rw (named, drawn, sessions)
            (valid_session-new_session rq.token rq.token (user_name username) role_ rq.now later
                b.sessions good soon
              ∙ ap
                  (λ k.
                    if k
                    then some (session_of (fields (user_name username) role_))
                    else (valid_session rq.token later b.sessions).0)
                  (text_eq_self rq.token)),
      )
