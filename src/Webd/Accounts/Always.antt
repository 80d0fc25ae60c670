-- ===== src/Webd/Accounts/Always.antt =====
-- webd.py, the handlers of accounts one after the other, as MUTATE_LOCK lets them through.
use pipe_os.Prelude.{◌≡◌, true, Bool, List, [], ◌∷◌, Text, All}
use pipe_os.Prelude.Fallible.{Fallible}
use pipe_os.Webd.{Refusal, Box, Request, Tools}
use pipe_os.Webd.Ending.{Ends, Ends-box, weaken-Ends}
use pipe_os.Webd.Users.{any_user, read_users}
use pipe_os.Webd.Accounts.{SetBody, users_set, users_del}
use pipe_os.Webd.Accounts.Sound.{
  HasAdmin, Kept, Kept-HasAdmin, listed-HasAdmin, can_sign_in, Good-can_sign_in,
}
use pipe_os.Webd.Accounts.Changed.{IsBoolean}
use pipe_os.Webd.Accounts.Kept.{ListsAdmin, users_set-ListsAdmin}
use pipe_os.Webd.Accounts.Others.{users_add-ListsAdmin}
use pipe_os.Webd.Accounts.SignedIn.{api_password-ListsAdmin, login-HasAdmin}
use pipe_os.Webd.Accounts.Deleted.{users_del-ListsAdmin}
use pipe_os.Webd.Creation.{AddBody, users_add}
use pipe_os.Webd.SignIn.{claimed, login, logout, api_password}

-- A request to the handlers of accounts.
pub data Op : Type 0 where
  add : Request → AddBody → Op
  change : Request → SetBody → Op
  remove : Request → Text → Bool → Op
  sign_in : Request → Text → Text → Op
  sign_out : Request → Op
  new_password : Request → Text → Text → Op

-- The box after a request, whether it was refused or not.
unfoldable pub run_op : Tools → Op → Box → Box
run_op t (add rq q) b = (users_add t rq q b).1
run_op t (change rq q) b = (users_set t rq q b).1
run_op t (remove rq name purge) b = (users_del t rq name purge b).1
run_op t (sign_in rq name pw) b = (login t rq name pw b).1
run_op t (sign_out rq) b = (logout rq b).1
run_op t (new_password rq current new) b = (api_password t rq current new b).1

unfoldable pub run_ops : Tools → List Op → Box → Box
unfolding run_op
run_ops t [] b = b
run_ops t (op ∷ ops) b = run_ops t ops (run_op t op b)

-- A request whose `disabled`, where it has one, is a Boolean.
abbrev pub IsProper : Op → Type 0
IsProper (add rq q) = Unit
IsProper (change rq q) = IsBoolean q.disabled
IsProper (remove rq name purge) = Unit
IsProper (sign_in rq name pw) = Unit
IsProper (sign_out rq) = Unit
IsProper (new_password rq current new) = Unit

ListsAdmin-HasAdmin :
    {A : Type 0} (b : Box) (x : Fallible Refusal A × Box)
    → HasAdmin b
    → Ends (Kept b) (λ r c. ListsAdmin c) x
    → HasAdmin x.1
ListsAdmin-HasAdmin b x here e = Ends-box HasAdmin x (
    weaken-Ends (Kept b) HasAdmin _ _ x (λ c k. Kept-HasAdmin b c k here)
      (λ a c l. listed-HasAdmin c l.0 l.1 l.2 l.3) e)

run_op-HasAdmin :
    (t : Tools) (op : Op) (b : Box) → IsProper op → HasAdmin b → HasAdmin (run_op t op b)
unfolding run_op logout read_users claimed
run_op-HasAdmin t (add rq q) b proper here =
    ListsAdmin-HasAdmin b _ here (users_add-ListsAdmin t rq q b here)
run_op-HasAdmin t (change rq q) b proper here =
    ListsAdmin-HasAdmin b _ here (users_set-ListsAdmin t rq q b proper here)
run_op-HasAdmin t (remove rq name purge) b proper here =
    ListsAdmin-HasAdmin b _ here (users_del-ListsAdmin t rq name purge b here)
run_op-HasAdmin t (sign_in rq name pw) b proper here =
    Ends-box HasAdmin (login t rq name pw b) (login-HasAdmin t rq name pw b here)
run_op-HasAdmin t (sign_out rq) b proper here = here
run_op-HasAdmin t (new_password rq current new) b proper here =
    ListsAdmin-HasAdmin b _ here (api_password-ListsAdmin t rq current new b here)

run_ops_lem :
    (t : Tools) (ops : List Op) (b : Box)
    → All IsProper ops
    → HasAdmin b
    → HasAdmin (run_ops t ops b)
unfolding run_ops
run_ops_lem t [] b proper here = here
run_ops_lem t (op ∷ ops) b proper here =
    run_ops_lem t ops (run_op t op b) proper.1 (run_op-HasAdmin t op b proper.0 here)

-- In a claimed box with an enabled admin, where each account has a hash in the form that is checked
-- or else is share-only and no admin, no sequence of requests to add, change or remove accounts, to
-- sign in or out or to change a password changes any of this, the refused requests included, as long
-- as each `disabled` is a Boolean; and so some account is an enabled admin, not share-only and with
-- such a hash.
pub run_ops-HasAdmin :
    (t : Tools) (ops : List Op) (b : Box)
    → All IsProper ops
    → HasAdmin b
    → HasAdmin (run_ops t ops b) × (any_user can_sign_in (read_users (run_ops t ops b)) ≡ true)
run_ops-HasAdmin t ops b proper here =
    let there = run_ops_lem t ops b proper here in
    (there, Good-can_sign_in (read_users (run_ops t ops b)) there.0)
