-- ===== src/Webd/SignIn.antt =====
-- webd.py, the handlers of /api/login, /api/logout and /api/password.
pub mod Admitted
use pipe_os.Prelude.{
  Bool, true, false, ◌&&◌, ◌||◌, not, Option, none, some, [], ◌∷◌, ltb, if◌then◌else◌, length, Text,
  text_eq, is_empty, codes,
}
use pipe_os.Prelude.Fallible.{ok}
use pipe_os.Prelude.Ascii.{strip_space}
use pipe_os.Prelude.Dict.{Dict}
use pipe_os.Webd.{
  SessionFile, Role, admin, role_or_admin, Session, User, missing, unreadable, listed, unclaimed,
  no_hash, hashed, saved, unix_hash, event, Box, Request, Tools, account_gone, wrong_password,
  short_password, hash_failed, not_claimed, signed_out, Handler, ◌>>=◌, ◌>>◌, return, refuse,
  refuse_if, when, need, ask, call,
}
use pipe_os.Webd.Sessions.{admin_name, drop_session}
use pipe_os.Webd.Passwords.{hash_password, check_hash}
use pipe_os.Webd.Users.{bare_user, read_users, find_user, change_user, write_users}
use pipe_os.Webd.Callers.{authed, end_sessions, start_session}
use pipe_os.Webd.Accounts.{keep_admin_conf}

-- `claimed`
unfoldable pub claimed : Box → Bool
claimed b = elim b.admin_conf [ unclaimed ↦ false | no_hash ↦ true | hashed h ↦ true ]

-- `os.path.exists(USERS_CONF)`
abbrev pub users_conf_exists : Box → Bool
users_conf_exists b = elim b.users_conf [ missing ↦ false | unreadable ↦ true | listed us ↦ true ]

-- `(body.get("username") or "").strip() or "admin"`
abbrev pub user_name : Text → Text
user_name s = if is_empty (strip_space s) then admin_name else strip_space s

-- `drop_session(self.cookie_token())`
abbrev pub without : Option Text → Dict SessionFile → Dict SessionFile
without none d = d
without (some tok) d = drop_session tok d

-- `api_logout`
unfoldable pub logout : Request → Handler (Unit {0})
logout rq b = (ok tt, record b { sessions = without rq.cookie b.sessions })

-- What `api_password` does once the users are written.
unfoldable pub finish_password : Request → User → Handler Text
finish_password rq v = do
  keep_admin_conf v.name (elim v.hash [ none ↦ [] | some h ↦ h ])
  when (v.unix && v.sudo) (call (unix_hash v.name (elim v.hash [ none ↦ [] | some h ↦ h ])))
  call (event v.name (codes "password changed"))
  end_sessions v.name rq.now
  start_session rq.token v.name (role_or_admin v.role) rq.now
  call saved
  return rq.token

module _ (t : Tools) (rq : Request) where
  -- The account that a name and a password sign in to.
  unfoldable pub signs_in : Text → Option User → Option User
  signs_in pw none = none
  signs_in pw (some u) =
      if u.disabled || u.share || not (check_hash t pw u.hash) then none else some u

  abbrev refused : Handler (Text × Text × Role)
  refused = do call (event (b'-' ∷ []) (codes "login failed")); refuse wrong_password

  -- `if not os.path.exists(USERS_CONF) and name == "admin": write_users(…)`
  unfoldable pub seed_users : Text → User → Handler (Unit {0})
  seed_users name u = do
    there ← ask users_conf_exists
    when (not there && text_eq name admin_name)
        (write_users (bare_user admin_name admin u.hash ∷ []))

  -- What `api_login` does with the account that signs in, if one does.
  unfoldable pub admit : Text → Option User → Handler (Text × Text × Role)
  admit name none = refused
  admit name (some u) = do
    call (event name (codes "login ok"))
    seed_users name u
    start_session rq.token name (role_or_admin u.role) rq.now
    return (rq.token, name, role_or_admin u.role)

  -- `api_login`: the session's token, the user and the role
  unfoldable pub login : Text → Text → Handler (Text × Text × Role)
  login username pw = do
    there ← ask claimed
    refuse_if (not there) not_claimed
    us ← ask read_users
    admit (user_name username) (signs_in pw (find_user (user_name username) us))

  -- `if not check_hash(…)`
  unfoldable pub check_current : Session → Text → User → Handler (Unit {0})
  check_current sess current u =
      if check_hash t current u.hash
      then return tt
      else (do call (event sess.user (codes "password change failed")); refuse wrong_password)

  -- `api_password`; the result is the new session's token. `do_POST` has refused a caller whom `authed`
  -- does not know.
  unfoldable pub api_password : Text → Text → Handler Text
  api_password current new = do
    asker ← authed rq
    sess ← need asker signed_out
    us ← ask read_users
    u ← need (find_user sess.user us) account_gone
    check_current sess current u
    refuse_if (ltb (length new) 8) short_password
    h ← need (hash_password t rq.salt new) hash_failed
    let v : User = record u { hash = some h }
    write_users (change_user u.name v us)
    finish_password rq v
