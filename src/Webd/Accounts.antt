-- ===== src/Webd/Accounts.antt =====
-- webd.py, the handlers of /api/users/add, /api/users/set and /api/users/del.
pub mod Lists
pub mod Sound
pub mod Parts
pub mod Changed
pub mod Kept
pub mod Deleted
pub mod Others
pub mod SignedIn
pub mod Always
pub mod Demoted
use pipe_os.Prelude.{
  ℕ, ◌+◌, ◌-◌, Bool, true, false, ◌&&◌, ◌||◌, not, Option, none, some, List, [], ◌∷◌, ◌++◌, ◌==◌,
  ltb, leb, if◌then◌else◌, length, Text, text_eq, is_empty, codes, map,
}
use pipe_os.Prelude.Fallible.{ok, err}
use pipe_os.Prelude.Ascii.{has_char, strip_space, text_in}
use pipe_os.Webd.{
  Role, admin, plain_user, viewer, other, is_admin, role_or_admin, Session, User, listed, AdminConf,
  hashed, Call, saved, smb_enabled, smb_forgotten, unix_added, unix_nologin, unix_deleted,
  unix_purged, sudo_granted, unix_hash, unix_key, event, Box, Request, Tools, Refusal, no_user,
  no_share, no_admin, own_account, bad_name, name_exists, bad_role, share_only, short_password,
  hash_failed, sudo_needs_unix, unix_needs_key, bad_term_pass, name_taken, unix_failed,
  key_rejected, Handler, ◌>>=◌, ◌>>◌, return, refuse_if, when, need, ask, call,
}
use pipe_os.Webd.Sessions.{admin_name}
use pipe_os.Webd.Passwords.{hash_password}
use pipe_os.Webd.Users.{
  read_users, find_user, change_user, remove_user, last_admin_guard, write_users, is_unquotable,
  apply_terminals,
}
use pipe_os.Webd.Callers.{user_admin_guard, end_sessions, start_session}

-- A JSON value where a Boolean belongs: one, or another value by its truth.
pub data Flag : Type 0 where
  exactly : Bool → Flag
  truthy falsy : Flag

-- `bool(v)`
abbrev pub truth : Flag → Bool
truth (exactly v) = v
truth truthy = true
truth falsy = false

-- The body of /api/users/set, a key that is not there being `none`; `terminal` and `sudo` tell only
-- whether the key is there.
pub record SetBody : Type 0 where
  pub name : Text
  pub role : Option Role
  pub disabled : Option Flag
  pub password : Option Text
  pub ssh_key : Option Text
  pub term_pass : Option Text
  pub terminal : Bool
  pub sudo : Bool

abbrev pub is_there {ℓ} : {A : Type ℓ} → Option A → Bool
is_there none = false
is_there (some a) = true

-- `body.get(key) or ""`
abbrev pub text_or_empty : Option Text → Text
text_or_empty none = []
text_or_empty (some s) = s

-- `any(k in body for k in SHARE_ONLY_FORBIDS)`
abbrev pub has_forbidden : SetBody → Bool
has_forbidden q =
    is_there q.password
    || is_there q.ssh_key
    || q.terminal
    || is_there q.term_pass
    || q.sudo
    || is_there q.role

-- `role in ("admin", "user", "viewer")`
abbrev pub is_role : Role → Bool
is_role admin = true
is_role plain_user = true
is_role viewer = true
is_role (other r) = false

abbrev pub asks_bad_role : Option Role → Bool
asks_bad_role none = false
asks_bad_role (some r) = not (is_role r)

-- `body.get("role") in ("user", "viewer")`
abbrev pub asks_lower_role : Option Role → Bool
asks_lower_role none = false
asks_lower_role (some admin) = false
asks_lower_role (some plain_user) = true
asks_lower_role (some viewer) = true
asks_lower_role (some (other r)) = false

-- `body.get("disabled") is True`
abbrev pub is_true : Option Flag → Bool
is_true none = false
is_true (some (exactly v)) = v
is_true (some truthy) = false
is_true (some falsy) = false

-- The account under its new role.
abbrev pub with_role : Option Role → User → User
with_role none u = u
with_role (some r) u = record u { role = r }

-- `"disabled" in body and bool(body["disabled"]) != bool(u.get("disabled"))`
abbrev pub switches : Option Flag → Bool → Bool
switches none old = false
switches (some f) true = not (truth f)
switches (some f) false = truth f

-- The switch `disabled`, with the sessions and the SMB logon.
unfoldable pub set_disabled : Request → Option Flag → User → Handler User
set_disabled rq f u =
    if switches f u.disabled
    then (do
      let v : User = record u { disabled = not u.disabled }
      when v.disabled (end_sessions v.name rq.now)
      when v.unix (call (smb_enabled v.name (not v.disabled)))
      return v)
    else return u

-- `if u["name"] == "admin": write_private(ADMIN_CONF, …)`
abbrev pub keep_admin_conf : Text → Text → Handler (Unit {0})
keep_admin_conf name h b =
    (ok tt, if text_eq name admin_name then record b { admin_conf = hashed h } else b)

module _ (t : Tools) (rq : Request) where
  -- The new password of `users_set`; the token is that of a session made for the caller.
  unfoldable pub set_password : Session → Text → User → Handler (User × Option Text)
  set_password sess pw u = if is_empty pw then return (u, none) else (do
    refuse_if (ltb (length pw) 8) short_password
    h ← need (hash_password t rq.salt pw) hash_failed
    let v : User = record u { hash = some h }
    keep_admin_conf v.name h
    when (v.unix && v.sudo) (call (unix_hash v.name h))
    call (event sess.user (codes "password reset"))
    end_sessions v.name rq.now
    if text_eq v.name sess.user
        then (do
          start_session rq.token v.name (role_or_admin v.role) rq.now
          return (v, some rq.token))
        else return (v, none))

  unfoldable pub set_ssh_key : Text → User → Handler (Unit {0})
  set_ssh_key key u = when (not (is_empty key) && u.unix) (do
    call (unix_key u.name (strip_space key))
    refuse_if (not (t.set_key u.name (strip_space key))) key_rejected)

  unfoldable pub set_term_pass : Option Text → User → Handler User
  set_term_pass none u = return u
  set_term_pass (some pw) u = if not u.terminal then return u else (do
    refuse_if (is_empty (strip_space pw) || is_unquotable (strip_space pw)) bad_term_pass
    return (record u { term_pass = strip_space pw }))

  -- `api_users_set`; the result is the token of the session made for the caller
  unfoldable pub users_set : SetBody → Handler (Option Text)
  users_set q = do
    sess ← user_admin_guard rq
    us ← ask read_users
    u ← need (find_user (strip_space q.name) us) no_user
    refuse_if (asks_bad_role q.role) bad_role
    refuse_if (u.share && has_forbidden q) share_only
    refuse_if
        ((asks_lower_role q.role || is_true q.disabled)
          && is_admin u.role
          && last_admin_guard us u.name)
        no_admin
    v ← set_disabled rq q.disabled (with_role q.role u)
    (w, minted) ← set_password sess (text_or_empty q.password) v
    set_ssh_key (text_or_empty q.ssh_key) w
    x ← set_term_pass q.term_pass w
    write_users (change_user u.name x us)
    apply_terminals (change_user u.name x us)
    call saved
    return minted

  -- `api_users_del`
  unfoldable pub users_del : Text → Bool → Handler (Unit {0})
  users_del name purge_home = do
    sess ← user_admin_guard rq
    us ← ask read_users
    u ← need (find_user (strip_space name) us) no_user
    refuse_if (text_eq (strip_space name) sess.user) own_account
    refuse_if (is_admin u.role && last_admin_guard us (strip_space name)) no_admin
    when u.unix (do
      call (smb_forgotten (strip_space name))
      call (if purge_home then unix_purged (strip_space name) else unix_deleted (strip_space name)))
    write_users (remove_user (strip_space name) us)
    end_sessions (strip_space name) rq.now
    apply_terminals (remove_user (strip_space name) us)
    call saved
