-- ===== src/Webd/Accounts/SignedIn.antt =====
-- webd.py, `api_password` and `api_login`: the enabled admins before and after.
use pipe_os.Prelude.{
  ◌≡◌, refl, ap, ◌∙◌, inl, inr, true, ◌&&◌, not, Option, none, some, List, Text, text_eq, length,
  ltb, arith, Bool-cases,
}
use pipe_os.Webd.{
  User, Session, Box, Request, Tools, listed, need, account_gone, signed_out, hash_failed,
  short_password, refuse_if,
}
use pipe_os.Webd.Ending.{Ends, run_on-Ends}
use pipe_os.Webd.Sessions.{admin_name}
use pipe_os.Webd.Passwords.{hash_password}
use pipe_os.Webd.Users.{any_user, read_users, find_user, change_user, write_users}
use pipe_os.Webd.Callers.{authed}
use pipe_os.Webd.Accounts.Lists.{find_user-name, any_user-change_user}
use pipe_os.Webd.SignIn.Admitted.{signs_in-some}
use pipe_os.Webd.Accounts.Sound.{
  Sound, Good, HasAdmin, Kept, Kept-HasAdmin, is_marked, find_user-Sound, change_user-Sound,
  hash_password-is_marked, check_hash-is_marked,
}
use pipe_os.Webd.Accounts.Kept.{
  Kept-refl, Kept-trans, run_on-Kept, refuse_if-Kept, need-Kept, ListsAdmin,
}
use pipe_os.Webd.SignIn.{
  claimed, login, api_password, signs_in, admit, seed_users, user_name, users_conf_exists,
  check_current, finish_password,
}

module _ (t : Tools) (rq : Request) where
  authed-Kept : (b : Box) → Ends (Kept b) (λ r c. Kept b c) (authed rq b)
  unfolding authed claimed
  authed-Kept b = ground arith

  seed_users-HasAdmin :
      (name : Text) (u : User) (b : Box)
      → is_marked u.hash ≡ true
      → HasAdmin b
      → Ends HasAdmin (λ r c. HasAdmin c) (seed_users t rq name u b)
  unfolding seed_users write_users read_users any_user claimed
  seed_users-HasAdmin name u b mark h =
      elim (Bool-cases (not (users_conf_exists b) && text_eq name admin_name)) [
        | inl fresh ↦ rw fresh ((refl, (mark, tt)), h.1)
        | inr old ↦ rw old h
      ]

  -- A new hash leaves an account as enabled as it was.
  rehashed-Good :
      (us : List User) (u : User) (h : Text)
      → find_user u.name us ≡ some u
      → is_marked (some h) ≡ true
      → Good us
      → Good (change_user u.name (record u { hash = some h }) us)
  rehashed-Good us u h found mark g = (
    any_user-change_user u.name (record u { hash = some h }) us u found (λ e. e) g.0,
    change_user-Sound u.name (record u { hash = some h }) us
        (rehashed-Sound u h mark (find_user-Sound u.name us u found g.1)) g.1,
  )
    where
      rehashed-Sound :
          (u : User) (h : Text)
          → is_marked (some h) ≡ true
          → Sound u
          → Sound (record u { hash = some h })
      rehashed-Sound u h mark s = elim (Bool-cases u.share) [
        | inl share ↦ rw share (rw share at s)
        | inr full ↦ rw full mark
      ]

  check-Kept :
      (current : Text) (u : User) (sess : Session) (b : Box)
      → Ends (Kept b) (λ r c. Kept b c) (check_current t rq sess current u b)
  unfolding check_current claimed
  check-Kept current u sess b = ground arith

  rehash-ListsAdmin :
      (b c : Box) (u : User) (us : List User)
      → Good us
      → claimed c ≡ true
      → Ends
          (Kept b)
          (λ r d. ListsAdmin d)
          (finish_password rq u (record c { users_conf = listed us }))
  unfolding finish_password claimed
  rehash-ListsAdmin b c u us h taken = elim (Bool-cases (text_eq u.name admin_name)) [
    | inl own ↦ elim (Bool-cases (u.unix && u.sudo)) [
      | inl shell ↦ rw (own, shell) (us, refl, h, refl)
      | inr plain ↦ rw (own, plain) (us, refl, h, refl)
    ]
    | inr else_ ↦ elim (Bool-cases (u.unix && u.sudo)) [
      | inl shell ↦ rw (else_, shell) (us, refl, h, taken)
      | inr plain ↦ rw (else_, plain) (us, refl, h, taken)
    ]
  ]

  pub api_password-ListsAdmin :
      (current new : Text) (b : Box)
      → HasAdmin b
      → Ends (Kept b) (λ r c. ListsAdmin c) (api_password t rq current new b)
  unfolding api_password write_users
  api_password-ListsAdmin current new b here =
      run_on-Kept b b _ _ (authed rq) _ (Kept-refl b) (authed-Kept b) λ asker c kc.
        run_on-Kept b c _ _ (need asker signed_out) _ kc (need-Kept c asker signed_out) λ sess d kd.
          let jd = Kept-trans b c d kc kd.0 in
          let us = read_users d in
          run_on-Kept b d _ _ (need (find_user sess.user us) account_gone) _ jd (need-Kept d _ _)
            λ u e ke.
              let je = Kept-trans b d e jd ke.0 in
              let found = ap (λ n. find_user n us) (find_user-name sess.user us u ke.1) ∙ ke.1 in
              run_on-Kept b e _ _ (check_current t rq sess current u) _ je
                (check-Kept current u sess e)
                λ r f kf.
                  let jf = Kept-trans b e f je kf in
                  let short = ltb (length new) 8 in
                  run_on-Kept b f _ _ (refuse_if short short_password) _ jf
                    (refuse_if-Kept f short short_password)
                    λ r g kg.
                      let jg = Kept-trans b f g jf kg.0 in
                      run_on-Kept b g _ _ (need (hash_password t rq.salt new) hash_failed) _ jg
                        (need-Kept g _ _)
                        λ h i ki.
                          rehash-ListsAdmin b i (record u { hash = some h })
                            (change_user u.name (record u { hash = some h }) us)
                            (rehashed-Good us u h found
                              (hash_password-is_marked t rq.salt new h ki.1)
                              (Kept-HasAdmin b d jd here).0)
                            ((Kept-trans b g i jg ki.0).2 here.1)

  -- Who signs in has a hash.
  signs_in-is_marked :
      (pw : Text) (o : Option User) (u : User)
      → signs_in t rq pw o ≡ some u
      → is_marked u.hash ≡ true
  signs_in-is_marked pw o u e = check_hash-is_marked t pw u.hash (signs_in-some t rq pw o u e).1.2

  admit-HasAdmin :
      (name : Text) (o : Option User) (b : Box)
      → ((u : User) → o ≡ some u → is_marked u.hash ≡ true)
      → HasAdmin b
      → Ends HasAdmin (λ r c. HasAdmin c) (admit t rq name o b)
  unfolding admit read_users claimed
  admit-HasAdmin name none b marks here = here
  admit-HasAdmin name (some u) b marks here =
      run_on-Ends HasAdmin (λ r c. HasAdmin c) (λ r c. HasAdmin c) (seed_users t rq name u _) _
        (seed_users-HasAdmin name u _ (marks u refl) here) (λ r c h. h)

  pub login-HasAdmin :
      (name pw : Text) (b : Box)
      → HasAdmin b
      → Ends HasAdmin (λ r c. HasAdmin c) (login t rq name pw b)
  unfolding login
  login-HasAdmin name pw b here = rw here.1 (
      admit-HasAdmin _ (signs_in t rq pw (find_user (user_name name) (read_users b))) b
        (λ u e. signs_in-is_marked pw _ u e) here)
