-- ===== src/Tests/Webd.antt =====
-- Runs of the sessions, passwords and accounts of webd.py, and their theorems at concrete inputs.
use pipe_os.Prelude.{◌≡◌, refl, true, false, none, some, List, [], ◌∷◌, codes, arith, split}
use pipe_os.Prelude.Ascii.{strip_space, starts_with}
use pipe_os.Prelude.Fallible.{ok}
use pipe_os.Webd.{admin, viewer, fields, User, Box, Request, role_or_admin}
use pipe_os.Webd.Sessions.{matches_token, session_of, valid_session, is_of}
use pipe_os.Webd.Passwords.{check_hash}
use pipe_os.Webd.Users.{
  read_users, find_user, any_user, write_users, apply_terminals, remove_user, change_user,
}
use pipe_os.Webd.Callers.{user_admin_guard}
use pipe_os.Webd.Accounts.{
  SetBody, exactly, users_set, users_del, set_disabled, set_password, set_ssh_key, set_term_pass,
}
use pipe_os.Webd.Accounts.Sound.{HasAdmin, can_sign_in}
use pipe_os.Webd.Accounts.Deleted.{valid_session-users_del}
use pipe_os.Webd.Accounts.Demoted.{valid_session-users_set}
use pipe_os.Webd.Accounts.Always.{Op, change, remove, sign_out, run_ops, run_ops-HasAdmin}
use pipe_os.Webd.SignIn.{login, claimed, admit, signs_in, seed_users}
use pipe_os.Webd.SignIn.Admitted.{SignsIn, login-valid_session}
use pipe_os.Tests.TwoUsers.{token_a, token_b, toy, two_users, eve_session}

abbrev nothing : SetBody
nothing = record {
  name = codes "eve";
  role = none;
  disabled = none;
  password = none;
  ssh_key = none;
  term_pass = none;
  terminal = false;
  sudo = false;
}

abbrev asks : Request
asks = record {
  now = 1100;
  cookie = some token_a;
  peer = none;
  salt = codes "ab";
  token = codes "cccccccccccccccccccccccccccccccccccccccccccccccccccccccccccccccc";
}

two_users-HasAdmin : HasAdmin two_users
unfolding any_user read_users claimed starts_with
two_users-HasAdmin = ((refl, (refl, (refl, tt))), refl)

abbrev changes : List Op
changes =
    change asks (record nothing { disabled = some (exactly true) })
    ∷ remove asks (codes "eve") false
    ∷ sign_out asks
    ∷ []

run_ops-HasAdmin_example :
    HasAdmin (run_ops toy changes two_users)
    × (any_user can_sign_in (read_users (run_ops toy changes two_users)) ≡ true)
run_ops-HasAdmin_example =
    run_ops-HasAdmin toy changes two_users (tt, (tt, (tt, tt))) two_users-HasAdmin

eve_gone :
    users_del toy asks (codes "eve ") false two_users
    ≡ (ok tt, (users_del toy asks (codes "eve ") false two_users).1)
unfolding users_del user_admin_guard find_user read_users strip_space write_users apply_terminals
    remove_user
eve_gone = refl

valid_session-users_del_example :
    is_of
      (strip_space (codes "eve "))
      (valid_session token_b 1200 (users_del toy asks (codes "eve ") false two_users).1.sessions).0
    ≡ false
valid_session-users_del_example =
    valid_session-users_del toy asks (codes "eve ") false two_users
      (users_del toy asks (codes "eve ") false two_users).1 token_b 1200 eve_gone

-- Eve becomes an admin; her session has the role viewer still.
abbrev promoted : SetBody
promoted = record nothing { role = some admin }

valid_session-users_set_example :
    (valid_session token_b 1100 (users_set toy asks promoted two_users).1.sessions).0
    ≡ (valid_session token_b 1100 two_users.sessions).0
valid_session-users_set_example =
    valid_session-users_set toy asks promoted two_users token_b refl refl

promoted_session :
    (valid_session token_b 1100 (users_set toy asks promoted two_users).1.sessions).0
    ≡ some eve_session
unfolding valid_session users_set user_admin_guard find_user read_users strip_space set_disabled
    set_password set_ssh_key set_term_pass write_users apply_terminals change_user
promoted_session = refl

abbrev signed_in : Box
signed_in = (login toy asks (codes " eve ") (codes "longenuf9") two_users).1

eve_signs_in :
    login toy asks (codes " eve ") (codes "longenuf9") two_users
    ≡ (ok (asks.token, codes "eve", viewer), signed_in)
unfolding login claimed admit signs_in find_user read_users strip_space check_hash starts_with split
    seed_users
eve_signs_in = refl

asks_token : matches_token asks.token ≡ true
unfolding matches_token
asks_token = refl

login-valid_session_example :
    (u : User) × (find_user (codes "eve") (read_users two_users) ≡ some u)
    × SignsIn toy (codes "longenuf9") u
    × ((valid_session asks.token 5000 signed_in.sessions).0
        ≡ some (session_of (fields (codes "eve") (role_or_admin u.role))))
login-valid_session_example =
    login-valid_session toy asks (codes " eve ") (codes "longenuf9") asks.token (codes "eve") viewer
      two_users signed_in 5000 eve_signs_in asks_token (omega arith)
