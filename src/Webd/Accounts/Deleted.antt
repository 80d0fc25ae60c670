-- ===== src/Webd/Accounts/Deleted.antt =====
-- webd.py, `api_users_del`: what it leaves of the enabled admins and of the sessions.
use pipe_os.Prelude.{
  ◌≡◌, refl, inl, inr, ℕ, Bool, false, ◌&&◌, some, List, Text, text_eq, arith, Bool-cases,
  if◌then◌else◌,
}
use pipe_os.Prelude.Ascii.{strip_space}
use pipe_os.Prelude.Fallible.{ok}
use mathlib.Core.Path.{subst}
use pipe_os.Prelude.Dict.{Dict}
use pipe_os.Webd.{
  User, SessionFile, Box, Request, Tools, listed, is_admin, no_user, own_account, no_admin, when,
  call, smb_forgotten, unix_purged, unix_deleted, refuse_if, need, ◌>>◌,
}
use pipe_os.Webd.Ending.{Ends, weaken-Ends, run_on-Ends, run_on-answer}
use pipe_os.Webd.Sessions.{is_of, valid_session, drop_user_sessions}
use pipe_os.Webd.Sessions.Dropped.{valid_session-drop_user_sessions}
use pipe_os.Webd.Users.{
  read_users, find_user, remove_user, last_admin_guard, write_users, apply_terminals,
}
use pipe_os.Webd.Callers.{user_admin_guard}
use pipe_os.Webd.Accounts.{users_del}
use pipe_os.Webd.Accounts.Lists.{any_user-remove_user, other_admin-remove_user}
use pipe_os.Webd.SignIn.{claimed}
use pipe_os.Webd.Accounts.Sound.{Good, HasAdmin, Kept, Kept-HasAdmin, remove_user-Sound}
use pipe_os.Webd.Accounts.Parts.{user_admin_guard-Kept}
use pipe_os.Webd.Accounts.Kept.{
  Kept-refl, Kept-trans, run_on-Kept, refuse_if-Kept, need-Kept, ListsAdmin, written-ListsAdmin,
}

removed-Good :
    (name : Text) (us : List User) (u : User)
    → find_user name us ≡ some u
    → (is_admin u.role && last_admin_guard us name) ≡ false
    → Good us
    → Good (remove_user name us)
removed-Good name us u found guard g = (
  elim (Bool-cases (last_admin_guard us name)) [
    | inr more ↦ other_admin-remove_user name us more
    | inl last ↦ any_user-remove_user name us u found (ground arith) g.0
  ],
  remove_user-Sound name us g.1,
)

module _ (t : Tools) (rq : Request) (name : Text) (purge : Bool) (b : Box) where
  -- The end of the unix account.
  forget_unix-Kept :
      (u : User) (c : Box)
      → Ends
          (Kept c)
          (λ r d. Kept c d)
          (when u.unix
            (call (smb_forgotten (strip_space name))
              >> call (
                  if purge
                  then unix_purged (strip_space name)
                  else unix_deleted (strip_space name)))
            c)
  unfolding claimed
  forget_unix-Kept u c = ground arith

  pub users_del-ListsAdmin :
      HasAdmin b → Ends (Kept b) (λ r c. ListsAdmin c) (users_del t rq name purge b)
  unfolding users_del write_users claimed
  users_del-ListsAdmin here =
      run_on-Kept b b _ _ (user_admin_guard rq) _ (Kept-refl b) (user_admin_guard-Kept rq b)
        λ sess c kc.
          let us = read_users c in
          run_on-Kept b c _ _ (need (find_user (strip_space name) us) no_user) _ kc
            (need-Kept c _ _)
            λ u d kd.
              let jd = Kept-trans b c d kc kd.0 in
              let own = text_eq (strip_space name) sess.user in
              run_on-Kept b d _ _ (refuse_if own own_account) _ jd
                (refuse_if-Kept d own own_account)
                λ r e ke.
                  let je = Kept-trans b d e jd ke.0 in
                  let last : Bool = is_admin u.role && last_admin_guard us (strip_space name) in
                  run_on-Kept b e _ _ (refuse_if last no_admin) _ je
                    (refuse_if-Kept e last no_admin)
                    λ r f kf.
                      let jf = Kept-trans b e f je kf.0 in
                      run_on-Kept b f _ _ (when u.unix _) _ jf (forget_unix-Kept u f) λ r g kg.
                        written-ListsAdmin b
                          (record g {
                            sessions = drop_user_sessions (strip_space name) rq.now g.sessions;
                          })
                          (remove_user (strip_space name) us) _
                          (removed-Good (strip_space name) us u kd.1 kf.1
                            (Kept-HasAdmin b c kc here).0)
                          ((Kept-trans b f g jf kg).2 here.1) (λ n. (refl, refl))

  apply_terminals-sessions :
      (us : List User) (c : Box)
      → Ends (λ d. ⊥) (λ r d. d.sessions ≡ c.sessions) (apply_terminals us c)
  unfolding apply_terminals
  apply_terminals-sessions us c = ground arith

  -- The sessions of an account that is removed have been dropped.
  users_del-dropped :
      Ends
        (λ c. Unit {0})
        (λ r c.
          (d : Dict SessionFile) × (c.sessions ≡ drop_user_sessions (strip_space name) rq.now d))
        (users_del t rq name purge b)
  unfolding users_del write_users
  users_del-dropped = run_on-answer _ (user_admin_guard rq b) _ λ sess c.
      run_on-answer _ (need (find_user (strip_space name) (read_users c)) no_user c) _ λ u d.
        let own = text_eq (strip_space name) sess.user in
        run_on-answer _ (refuse_if own own_account d) _ λ r e.
          let last : Bool = is_admin u.role && last_admin_guard (read_users c) (strip_space name) in
          run_on-answer _ (refuse_if last no_admin e) _ λ r f.
            run_on-answer _ (when u.unix _ f) _ λ r g.
              let dropped = drop_user_sessions (strip_space name) rq.now g.sessions in
              let us = remove_user (strip_space name) (read_users c) in
              run_on-Ends _ (λ r h. h.sessions ≡ dropped) _ (apply_terminals us _) _
                (weaken-Ends (λ h. ⊥) _ _ _ (apply_terminals us _) (λ h no_. absurd no_)
                  (λ r h e'. e')
                  (apply_terminals-sessions us
                    (record g { users_conf = listed us; sessions = dropped })))
                (λ r h e'. (g.sessions, e'))

  -- An account that `api_users_del` removed has no session left, whatever the cookie and however much
  -- later.
  pub valid_session-users_del :
      (c : Box) (tok : Text) (later : ℕ)
      → users_del t rq name purge b ≡ (ok tt, c)
      → is_of (strip_space name) (valid_session tok later c.sessions).0 ≡ false
  valid_session-users_del c tok later done =
      let dropped = subst (Ends (λ c. Unit {0}) _) done users_del-dropped in
      rw dropped.1 (valid_session-drop_user_sessions (strip_space name) tok rq.now later dropped.0)
