-- ===== src/Webd/Accounts/Demoted.antt =====
-- webd.py, `api_users_set`: the sessions of an account when its role is changed.
use pipe_os.Prelude.{
  ℕ, ◌≡◌, refl, sym, ap, ◌∙◌, ◌⊎◌, inl, inr, Bool, true, false, ◌&&◌, ◌||◌, Option, none, some,
  List, [], Text, text_eq, text_eq_iff, arith, Bool-cases, Option-cases,
}
use mathlib.Core.Path.{subst}
use pipe_os.Prelude.Ascii.{strip_space}
use pipe_os.Prelude.Dict.{Dict, get}
use pipe_os.Webd.{
  SessionFile, User, Session, Box, Request, Tools, Handler, refuse_if, need, run_on, is_admin,
  no_user, bad_role, share_only, no_admin, listed, Refusal,
}
use pipe_os.Prelude.Fallible.{Fallible, ok, err}
use pipe_os.Webd.Ending.{Ends, Ends-box, run_on-Ends, weaken-Ends}
use pipe_os.Webd.Sessions.{used, valid_session}
use pipe_os.Webd.Sessions.Dropped.{seen, valid_session_lem, get-valid_session}
use pipe_os.Webd.Users.{
  read_users, find_user, change_user, last_admin_guard, write_users, apply_terminals,
}
use pipe_os.Webd.Callers.{cookie_session, authed, admin_or_refuse, user_admin_guard}
use pipe_os.Webd.Accounts.{
  SetBody, asks_bad_role, asks_lower_role, is_true, has_forbidden, with_role, text_or_empty,
  set_disabled, set_password, set_ssh_key, set_term_pass, users_set,
}

-- The sessions are those of the other box.
abbrev Same : Box → Box → Type 0
Same b c = c.sessions ≡ b.sessions

run_on-Same :
    {A B : Type 0} (b d : Box) (Q : A → Box → Type 0) (m : Handler A) (f : A → Handler B)
    → Same b d
    → Ends (Same d) (λ a c. Same d c × Q a c) (m d)
    → ((a : A) (c : Box) → Same b c → Q a c → Ends (Same b) (λ r e. Same b e) (f a c))
    → Ends (Same b) (λ r e. Same b e) (run_on (m d) f)
run_on-Same b d Q m f k h next =
    run_on-Ends (Same b) (λ a c. Same b c × Q a c) (λ r e. Same b e) (m d) f
      (weaken-Ends (Same d) (Same b) _ _ (m d) (λ c e. e ∙ k) (λ a c e. (e.0 ∙ k, e.1)) h)
      (λ a c e. next a c e.0 e.1)

refuse_if-Same :
    (d : Box) (c : Bool) (e : Refusal)
    → Ends (Same d) (λ r b. Same d b × Unit {0}) (refuse_if c e d)
refuse_if-Same d true e = refl
refuse_if-Same d false e = (refl, tt)

need-Same :
    {A : Type 0} (d : Box) (o : Option A) (e : Refusal)
    → Ends (Same d) (λ a b. Same d b × Unit {0}) (need o e d)
need-Same d none e = refl
need-Same d (some a) e = (refl, tt)

set_disabled-Same :
    (rq : Request) (u : User) (d : Box)
    → Ends (Same d) (λ v b. Same d b × Unit {0}) (set_disabled rq none u d)
unfolding set_disabled
set_disabled-Same rq u d = (refl, tt)

set_password-Same :
    (t : Tools) (rq : Request) (sess : Session) (u : User) (d : Box)
    → Ends (Same d) (λ v b. Same d b × Unit {0}) (set_password t rq sess [] u d)
unfolding set_password
set_password-Same t rq sess u d = (refl, tt)

set_ssh_key-Same :
    (t : Tools) (rq : Request) (key : Text) (u : User) (d : Box)
    → Ends (Same d) (λ v b. Same d b × Unit {0}) (set_ssh_key t rq key u d)
unfolding set_ssh_key
set_ssh_key-Same t rq key u d = ground arith

set_term_pass-Same :
    (t : Tools) (rq : Request) (pw : Option Text) (u : User) (d : Box)
    → Ends (Same d) (λ v b. Same d b × Unit {0}) (set_term_pass t rq pw u d)
unfolding set_term_pass
set_term_pass-Same t rq none u d = ground arith
set_term_pass-Same t rq (some pw) u d = ground arith

apply_terminals-Same :
    (us : List User) (d : Box) → Ends (Same d) (λ v b. Same d b × Unit {0}) (apply_terminals us d)
unfolding apply_terminals
apply_terminals-Same us d = ground arith

guard_box : {A : Type 0} (x : Fallible Refusal A × Box) → Ends (Same x.1) (λ s c. Same x.1 c) x
guard_box (ok a, b) = refl
guard_box (err e, b) = refl

module _ (t : Tools) (rq : Request) (q : SetBody) where
  -- What `users_set` does after its guard, where neither `disabled` nor a password is asked for.
  users_set-Same :
      (b : Box)
      → q.disabled ≡ none
      → text_or_empty q.password ≡ []
      → Ends
          (Same (user_admin_guard rq b).1)
          (λ r c. Same (user_admin_guard rq b).1 c)
          (users_set t rq q b)
  unfolding users_set write_users
  users_set-Same b disabled password =
      let a = (user_admin_guard rq b).1 in
      run_on-Ends _ (λ s c. Same a c) _ (user_admin_guard rq b) _
        (guard_box (user_admin_guard rq b))
        λ sess c kc.
          let us = read_users c in
          run_on-Same a c (λ u d. Unit {0}) (need (find_user (strip_space q.name) us) no_user) _ kc
            (need-Same c (find_user (strip_space q.name) us) no_user)
            λ u d kd _.
              let bad = asks_bad_role q.role in
              run_on-Same a d (λ r e. Unit {0}) (refuse_if bad bad_role) _ kd
                (refuse_if-Same d bad bad_role)
                λ r e ke _.
                  let shares : Bool = u.share && has_forbidden q in
                  run_on-Same a e (λ r f. Unit {0}) (refuse_if shares share_only) _ ke
                    (refuse_if-Same e shares share_only)
                    λ r f kf _.
                      let lowers : Bool =
                        (asks_lower_role q.role || is_true q.disabled)
                        && is_admin u.role
                        && last_admin_guard us u.name in
                      run_on-Same a f (λ r g. Unit {0}) (refuse_if lowers no_admin) _ kf
                        (refuse_if-Same f lowers no_admin)
                        λ r g kg _.
                          run_on-Same a g (λ v i. Unit {0})
                            (set_disabled rq q.disabled (with_role q.role u)) _ kg
                            (subst
                              (λ o.
                                Ends (Same g) (λ v i. Same g i × Unit {0})
                                  (set_disabled rq o (with_role q.role u) g))
                              (sym disabled) (set_disabled-Same rq (with_role q.role u) g))
                            λ v i ki _.
                              run_on-Same a i (λ w j. Unit {0})
                                (set_password t rq sess (text_or_empty q.password) v) _ ki
                                (subst
                                  (λ o.
                                    Ends (Same i) (λ w j. Same i j × Unit {0})
                                      (set_password t rq sess o v i))
                                  (sym password) (set_password-Same t rq sess v i))
                                λ w j kj _.
                                  run_on-Same a j (λ r l. Unit {0})
                                    (set_ssh_key t rq (text_or_empty q.ssh_key) w.0) _ kj
                                    (set_ssh_key-Same t rq (text_or_empty q.ssh_key) w.0 j)
                                    λ r l kl _.
                                      run_on-Same a l (λ x m. Unit {0})
                                        (set_term_pass t rq q.term_pass w.0) _ kl
                                        (set_term_pass-Same t rq q.term_pass w.0 l)
                                        λ x m km _.
                                          let us' = change_user u.name x us in
                                          run_on-Same a (record m { users_conf = listed us' })
                                            (λ r n. Unit {0}) (apply_terminals us') _ km
                                            (apply_terminals-Same us'
                                              (record m { users_conf = listed us' }))
                                            λ r n kn _. kn

seen_twice :
    (tok : Text) (now : ℕ) (o : Option SessionFile)
    → (seen tok now (seen tok now o).1).0 ≡ (seen tok now o).0
unfolding seen used
seen_twice tok now none = ground arith
seen_twice tok now (some f) = ground arith

-- A session that has been used is used again at the same time with the same answer.
valid_session_again :
    (tok j : Text) (now : ℕ) (d : Dict SessionFile)
    → (valid_session j now (valid_session tok now d).1).0 ≡ (valid_session j now d).0
valid_session_again tok j now d =
    rw (valid_session_lem j now (valid_session tok now d).1, valid_session_lem j now d)
      (rw (get-valid_session j tok now d) (elim (Bool-cases (text_eq tok j)) [
        | inr unlike ↦ rw unlike refl
        | inl same ↦ rw (same, (text_eq_iff tok j).0 same) (seen_twice j now (get j d))
      ]))

admin_or_refuse-box :
    (x : Fallible Refusal (Option Session) × Box) → (run_on x admin_or_refuse).1 ≡ x.1
admin_or_refuse-box (ok none, b) = refl
admin_or_refuse-box (ok (some s), b) = refl
admin_or_refuse-box (err e, b) = refl

cookie_session-box :
    (rq : Request) (b : Box)
    → ((cookie_session rq b).1.sessions ≡ b.sessions)
      ⊎ ((tok : Text) × ((cookie_session rq b).1.sessions
            ≡ (valid_session tok rq.now b.sessions).1))
unfolding cookie_session
cookie_session-box rq b = elim (Option-cases rq.cookie) [
  | inl none_ ↦ inl (ground arith)
  | inr (tok, there) ↦ inr (tok, ground arith)
]

authed-box :
    (rq : Request) (b : Box)
    → ((authed rq b).1.sessions ≡ b.sessions)
      ⊎ ((authed rq b).1.sessions ≡ (cookie_session rq b).1.sessions)
unfolding authed
authed-box rq b = elim (Option-cases rq.peer) [
  | inl alone ↦ inr (ground arith)
  | inr (who, member) ↦ inl (ground arith)
]

cookie_session-valid_session :
    (rq : Request) (j : Text) (b : Box)
    → (valid_session j rq.now (cookie_session rq b).1.sessions).0
      ≡ (valid_session j rq.now b.sessions).0
cookie_session-valid_session rq j b = elim (cookie_session-box rq b) [
  | inl same ↦ ap (λ d. (valid_session j rq.now d).0) same
  | inr (tok, one) ↦
      ap (λ d. (valid_session j rq.now d).0) one ∙ valid_session_again tok j rq.now b.sessions
]

authed-valid_session :
    (rq : Request) (j : Text) (b : Box)
    → (valid_session j rq.now (authed rq b).1.sessions).0 ≡ (valid_session j rq.now b.sessions).0
authed-valid_session rq j b = elim (authed-box rq b) [
  | inl same ↦ ap (λ d. (valid_session j rq.now d).0) same
  | inr asked ↦ ap (λ d. (valid_session j rq.now d).0) asked ∙ cookie_session-valid_session rq j b
]

guard-box : (rq : Request) (b : Box) → (user_admin_guard rq b).1 ≡ (authed rq b).1
unfolding user_admin_guard
guard-box rq b = admin_or_refuse-box (authed rq b)

guard-valid_session :
    (rq : Request) (j : Text) (b : Box)
    → (valid_session j rq.now (user_admin_guard rq b).1.sessions).0
      ≡ (valid_session j rq.now b.sessions).0
guard-valid_session rq j b =
    ap (λ c. (valid_session j rq.now c.sessions).0) (guard-box rq b) ∙ authed-valid_session rq j b

-- A request of an admin that changes the role of an account, but neither asks for `disabled` nor for a
-- password, leaves every session as it was, those of the account with the role they began with.
pub valid_session-users_set :
    (t : Tools) (rq : Request) (q : SetBody) (b : Box) (tok : Text)
    → q.disabled ≡ none
    → text_or_empty q.password ≡ []
    → (valid_session tok rq.now (users_set t rq q b).1.sessions).0
      ≡ (valid_session tok rq.now b.sessions).0
valid_session-users_set t rq q b tok disabled password =
    ap (λ d. (valid_session tok rq.now d).0)
      (Ends-box (Same (user_admin_guard rq b).1) (users_set t rq q b)
        (users_set-Same t rq q b disabled password))
    ∙ guard-valid_session rq tok b
