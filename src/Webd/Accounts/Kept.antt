-- ===== src/Webd/Accounts/Kept.antt =====
-- webd.py, the handlers of accounts: the enabled admins of the box before and after.
use pipe_os.Prelude.{◌≡◌, refl, ap, ◌∙◌, Bool, true, false, ◌&&◌, ◌||◌, Option, none, some, List}
use pipe_os.Prelude.Ascii.{strip_space}
use pipe_os.Webd.{
  User, listed, Box, Request, Tools, Refusal, Handler, refuse_if, need, run_on, no_user, bad_role,
  share_only, no_admin, is_admin,
}
use pipe_os.Webd.Ending.{Ends, run_on-Ends, weaken-Ends}
use pipe_os.Webd.Users.{
  read_users, find_user, change_user, last_admin_guard, write_users, apply_terminals,
}
use pipe_os.Webd.Callers.{user_admin_guard}
use pipe_os.Webd.Accounts.{
  SetBody, asks_bad_role, asks_lower_role, is_true, with_role, text_or_empty, set_disabled,
  set_password, set_ssh_key, set_term_pass, has_forbidden, users_set,
}
use pipe_os.Webd.Accounts.Lists.{find_user-name}
use pipe_os.Webd.SignIn.{claimed}
use pipe_os.Webd.Accounts.Sound.{Good, HasAdmin, Kept, Kept-HasAdmin, is_marked}
use pipe_os.Webd.Accounts.Parts.{
  user_admin_guard-Kept, set_disabled-Kept, set_password-Kept, set_ssh_key-Kept, set_term_pass-Kept,
  apply_terminals-Kept,
}
use pipe_os.Webd.Accounts.Changed.{
  IsBoolean, Changed, Changed-Good, unasked, with_role-same, with_role-disabled,
}

pub refuse_if-Kept :
    (b : Box) (c : Bool) (e : Refusal)
    → Ends (Kept b) (λ r d. Kept b d × (c ≡ false)) (refuse_if c e b)
refuse_if-Kept b true e = (refl, λ k. k, λ k. k)
refuse_if-Kept b false e = ((refl, λ k. k, λ k. k), refl)

pub need-Kept :
    {A : Type 0} (b : Box) (o : Option A) (e : Refusal)
    → Ends (Kept b) (λ a d. Kept b d × (o ≡ some a)) (need o e b)
need-Kept b none e = (refl, λ k. k, λ k. k)
need-Kept b (some a) e = ((refl, λ k. k, λ k. k), refl)

pub Kept-refl : (b : Box) → Kept b b
Kept-refl b = (refl, λ h. h, λ h. h)

pub Kept-trans : (b c d : Box) → Kept b c → Kept c d → Kept b d
Kept-trans b c d h k = (k.0 ∙ h.0, λ e. k.1 (h.1 e), λ e. k.2 (h.2 e))

-- Further on from a box that has kept the store.
pub run_on-Kept :
    {A B : Type 0} (b d : Box) (Q : A → Box → Type 0) (S : B → Box → Type 0) (m : Handler A)
    (f : A → Handler B)
    → Kept b d
    → Ends (Kept d) Q (m d)
    → ((a : A) (c : Box) → Q a c → Ends (Kept b) S (f a c))
    → Ends (Kept b) S (run_on (m d) f)
run_on-Kept b d Q S m f k h next =
    run_on-Ends (Kept b) Q S (m d) f
      (weaken-Ends (Kept d) (Kept b) Q Q (m d) (λ c l. Kept-trans b d c k l) (λ a c h. h) h) next

-- The store of a claimed box lists accounts of that kind, an enabled admin among them.
abbrev pub ListsAdmin : Box → Type 0
ListsAdmin c = (us : List User) × (c.users_conf ≡ listed us) × Good us × (claimed c ≡ true)

-- The end of a handler that writes the users.
pub written-ListsAdmin :
    {A : Type 0} (b c : Box) (us : List User) (f : Unit {0} → Handler A)
    → Good us
    → claimed c ≡ true
    → ((d : Box)
        → Ends (Kept b) (λ r e. (e.users_conf ≡ d.users_conf) × (claimed e ≡ claimed d)) (f tt d))
    → Ends
        (Kept b)
        (λ r e. ListsAdmin e)
        (run_on (apply_terminals us (record c { users_conf = listed us })) f)
unfolding claimed
written-ListsAdmin b c us f good taken next =
    run_on-Ends (Kept b) (λ r d. Kept (record c { users_conf = listed us }) d) (λ r e. ListsAdmin e)
      (apply_terminals us (record c { users_conf = listed us })) f
      (weaken-Ends (λ d. ⊥) (Kept b) _ _ (apply_terminals us (record c { users_conf = listed us }))
        (λ d no_. absurd no_) (λ r d k. k)
        (apply_terminals-Kept us (record c { users_conf = listed us })))
      (λ r d k.
        weaken-Ends (Kept b) (Kept b) _ _ (f tt d) (λ e k'. k')
          (λ a e e'. (us, e'.0 ∙ k.0, good, e'.1 ∙ k.2 taken)) (next d))

module _ (t : Tools) (rq : Request) (q : SetBody) (b : Box) where
  pub users_set-ListsAdmin :
      IsBoolean q.disabled → HasAdmin b → Ends (Kept b) (λ r c. ListsAdmin c) (users_set t rq q b)
  unfolding users_set write_users claimed
  users_set-ListsAdmin bool here =
      run_on-Kept b b _ _ (user_admin_guard rq) _ (Kept-refl b) (user_admin_guard-Kept rq b)
        λ sess c kc.
          let us = read_users c in
          run_on-Kept b c _ _ (need (find_user (strip_space q.name) us) no_user) _ kc
            (need-Kept c _ _)
            λ u d kd.
              let found =
                ap (λ n. find_user n us) (find_user-name (strip_space q.name) us u kd.1) ∙ kd.1 in
              let jd = Kept-trans b c d kc kd.0 in
              run_on-Kept b d _ _ (refuse_if (asks_bad_role q.role) bad_role) _ jd
                (refuse_if-Kept d _ _)
                λ r e ke.
                  let je = Kept-trans b d e jd ke.0 in
                  run_on-Kept b e _ _ (refuse_if (u.share && has_forbidden q) share_only) _ je
                    (refuse_if-Kept e _ _)
                    λ r f kf.
                      let jf = Kept-trans b e f je kf.0 in
                      let lowers : Bool =
                        (asks_lower_role q.role || is_true q.disabled)
                        && is_admin u.role
                        && last_admin_guard us u.name in
                      run_on-Kept b f _ _ (refuse_if lowers no_admin) _ jf
                        (refuse_if-Kept f lowers no_admin)
                        λ r g kg.
                          let jg = Kept-trans b f g jf kg.0 in
                          run_on-Kept b g _ _ (set_disabled rq q.disabled (with_role q.role u)) _ jg
                            (set_disabled-Kept rq q.disabled (with_role q.role u) g)
                            λ v i ki.
                              let ji = Kept-trans b g i jg ki.0 in
                              run_on-Kept b i _ _
                                (set_password t rq sess (text_or_empty q.password) v) _ ji
                                (set_password-Kept t rq sess (text_or_empty q.password) v i)
                                λ w j kj.
                                  let jj = Kept-trans b i j ji kj.0 in
                                  run_on-Kept b j _ _
                                    (set_ssh_key t rq (text_or_empty q.ssh_key) w.0) _ jj
                                    (set_ssh_key-Kept t rq (text_or_empty q.ssh_key) w.0 j)
                                    λ r l kl.
                                      let jl = Kept-trans b j l jj kl in
                                      run_on-Kept b l _ _ (set_term_pass t rq q.term_pass w.0) _ jl
                                        (set_term_pass-Kept t rq q.term_pass w.0 l)
                                        λ x m km.
                                          let jm = Kept-trans b l m jl km.0 in
                                          let c' : Changed q.role q.disabled u x = record {
                                            bool = bool;
                                            known = ke.1;
                                            new_role = km.2 ∙ kj.2 ∙ ki.2;
                                            switched =
                                                km.3
                                                ∙ kj.3
                                                ∙ ki.3
                                                ∙ with_role-disabled q.role q.disabled u;
                                            kind = km.4 ∙ kj.4 ∙ ki.4 ∙ (with_role-same q.role u).0;
                                            no_role = unasked u.share q kf.1;
                                            mark = λ e. km.5 (
                                                kj.5 (
                                                  ki.5 (
                                                    ap is_marked (with_role-same q.role u).1 ∙ e)));
                                          } in
                                          written-ListsAdmin b m (change_user u.name x us) _
                                            (Changed-Good q.role q.disabled us u x c' found kg.1
                                              (Kept-HasAdmin b c kc here).0)
                                            (jm.2 here.1) (λ n. (refl, refl))
