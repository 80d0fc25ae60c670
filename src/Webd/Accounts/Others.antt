-- ===== src/Webd/Accounts/Others.antt =====
-- webd.py, `user_add`: the enabled admins before and after.
use pipe_os.Prelude.{
  ◌≡◌, refl, inl, inr, Bool, true, false, Option, none, List, [], ◌∷◌, ◌++◌, All-append,
  Option-cases, if◌then◌else◌, Text, arith, Bool-cases,
}
use pipe_os.Prelude.Ascii.{strip_space}
use pipe_os.Webd.{User, Box, Request, Tools, listed, run_on, return, when}
use pipe_os.Webd.Ending.{Ends, weaken-Ends, run_on-Ends}
use pipe_os.Webd.Passwords.{hash_password}
use pipe_os.Webd.Users.{enabled_admin, read_users, write_users, apply_terminals}
use pipe_os.Webd.Callers.{user_admin_guard}
use pipe_os.Webd.Accounts.Lists.{any_user-append}
use pipe_os.Webd.Accounts.Sound.{
  Sound, Good, HasAdmin, Kept, Kept-HasAdmin, is_marked, hash_password-is_marked,
}
use pipe_os.Webd.Accounts.Parts.{user_admin_guard-Kept}
use pipe_os.Webd.Accounts.Kept.{Kept-refl, Kept-trans, run_on-Kept, ListsAdmin, written-ListsAdmin}
use pipe_os.Webd.Creation.{
  AddBody, checked_body, new_hash, make_unix, new_user, user_add, users_add,
}
use pipe_os.Webd.SignIn.{claimed}

module _ (t : Tools) (rq : Request) where
  checked_body-Kept :
      (us : List User) (q : AddBody) (b : Box)
      → Ends (Kept b) (λ r c. Kept b c) (checked_body t rq us q b)
  unfolding checked_body claimed
  checked_body-Kept us q b = ground arith

  new_hash-Kept :
      (q : AddBody) (b : Box)
      → Ends
          (Kept b)
          (λ h c. Kept b c × (if q.share then (h ≡ none) else (is_marked h ≡ true)))
          (new_hash t rq q b)
  unfolding new_hash
  new_hash-Kept q b = elim (Bool-cases q.share) [
    | inl share ↦ rw share (Kept-refl b, refl)
    | inr full ↦ elim (Option-cases (hash_password t rq.salt q.password)) [
      | inl failed ↦ rw (full, failed) (Kept-refl b)
      | inr (h, made) ↦
          rw (full, made) (Kept-refl b, hash_password-is_marked t rq.salt q.password h made)
    ]
  ]

  new_user-Sound :
      (name : Text) (h : Option Text) (us : List User) (q : AddBody)
      → (if q.share then (h ≡ none) else (is_marked h ≡ true))
      → Sound (new_user t rq name h us q)
  unfolding new_user
  new_user-Sound name h us q k = elim (Bool-cases q.share) [
    | inl share ↦ rw share refl
    | inr full ↦ rw full (rw full at k)
  ]

  make_unix-Kept :
      (name : Text) (h : Option Text) (q : AddBody) (b : Box)
      → Ends (Kept b) (λ r c. Kept b c) (make_unix t rq name h q b)
  unfolding make_unix claimed
  make_unix-Kept name h q b = ground arith

  appended-Good : (us : List User) (u : User) → Good us → Sound u → Good (us ++ (u ∷ []))
  appended-Good us u g s = (
    ground (arith, g.0, any_user-append enabled_admin us (u ∷ [])),
    All-append Sound us (u ∷ []) g.1 (s, tt),
  )

  -- The end of `user_add`.
  appended-ListsAdmin :
      (b c : Box) (us : List User) (u : User) (terminal : Bool)
      → Good us
      → Sound u
      → claimed c ≡ true
      → Ends
          (Kept b)
          (λ r d. ListsAdmin d)
          (run_on
            (when terminal
              (apply_terminals (us ++ (u ∷ [])))
              (record c { users_conf = listed (us ++ (u ∷ [])) }))
            (λ r. return u.term_port))
  unfolding claimed
  appended-ListsAdmin b c us u false g s taken =
      (us ++ (u ∷ []), refl, appended-Good us u g s, taken)
  appended-ListsAdmin b c us u true g s taken =
      written-ListsAdmin b c (us ++ (u ∷ [])) (λ r. return u.term_port) (appended-Good us u g s)
        taken (λ d. (refl, refl))

  user_add-ListsAdmin :
      (q : AddBody) (b : Box) → HasAdmin b → Ends (Kept b) (λ r c. ListsAdmin c) (user_add t rq q b)
  unfolding user_add write_users
  user_add-ListsAdmin q b here =
      let us = read_users b in
      run_on-Kept b b _ _ (checked_body t rq us q) _ (Kept-refl b) (checked_body-Kept us q b)
        λ r c kc. run_on-Kept b c _ _ (new_hash t rq q) _ kc (new_hash-Kept q c) λ h d kd.
          let jd = Kept-trans b c d kc kd.0 in
          run_on-Kept b d _ _ (make_unix t rq (strip_space q.name) h q) _ jd
            (make_unix-Kept (strip_space q.name) h q d)
            λ r e ke.
              appended-ListsAdmin b e us (new_user t rq (strip_space q.name) h us q) q.terminal
                here.0 (new_user-Sound (strip_space q.name) h us q kd.1)
                ((Kept-trans b d e jd ke).2 here.1)

  pub users_add-ListsAdmin :
      (q : AddBody) (b : Box)
      → HasAdmin b
      → Ends (Kept b) (λ r c. ListsAdmin c) (users_add t rq q b)
  unfolding users_add claimed
  users_add-ListsAdmin q b here =
      run_on-Kept b b _ _ (user_admin_guard rq) _ (Kept-refl b) (user_admin_guard-Kept rq b)
        λ s c kc.
          run_on-Ends (Kept b) _ _ (user_add t rq q c) _
            (weaken-Ends (Kept c) (Kept b) _ _ (user_add t rq q c) (λ d k. Kept-trans b c d kc k)
              (λ r d l. l) (user_add-ListsAdmin q c (Kept-HasAdmin b c kc here)))
            (λ r d l. l)
