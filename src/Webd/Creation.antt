-- ===== src/Webd/Creation.antt =====
-- webd.py, `user_add`: the making of an account.
use pipe_os.Prelude.{
  ℕ, ◌+◌, Bool, true, false, ◌&&◌, ◌||◌, not, Option, none, some, List, [], ◌∷◌, ◌++◌, ◌==◌, ltb,
  leb, if◌then◌else◌, length, Text, is_empty, codes,
}
use pipe_os.Prelude.Ascii.{strip_space, text_in}
use pipe_os.Webd.{
  Role, admin, viewer, other, User, saved, unix_added, unix_nologin, sudo_granted, unix_hash,
  unix_key, Request, Tools, bad_name, name_exists, bad_role, share_only, short_password,
  hash_failed, sudo_needs_unix, unix_needs_key, bad_term_pass, name_taken, unix_failed, Handler,
  ◌>>=◌, ◌>>◌, return, refuse_if, when, need, ask, call,
}
use pipe_os.Webd.Passwords.{hash_password}
use pipe_os.Webd.Users.{read_users, find_user, write_users, is_unquotable, apply_terminals}
use pipe_os.Webd.Callers.{user_admin_guard}
use pipe_os.Webd.Accounts.{is_there, is_role}

-- The body of /api/users/add, a key that is not there being empty or false.
pub record AddBody : Type 0 where
  pub name : Text
  pub role : Role
  pub password : Text
  pub ssh_key : Text
  pub term_pass : Text
  pub share : Bool
  pub unix : Bool
  pub sudo : Bool
  pub terminal : Bool

is_lower_case : ℕ → Bool
is_lower_case c = leb b'a' c && leb c b'z'

name_rest : Text → Bool
unfolding is_lower_case
name_rest [] = true
name_rest (c ∷ s) =
    (is_lower_case c || (leb b'0' c && leb c b'9') || c == b'_' || c == b'-') && name_rest s

-- `USER_NAME_RE.fullmatch(name)`
unfoldable pub matches_user_name : Text → Bool
unfolding is_lower_case name_rest
matches_user_name [] = false
matches_user_name (c ∷ s) = is_lower_case c && name_rest s && leb (length s) 31

-- USER_NAME_DENY
unfoldable pub user_name_deny : List Text
user_name_deny =
    codes "root"
    ∷ codes "nobody"
    ∷ codes "operator"
    ∷ codes "shutdown"
    ∷ codes "halt"
    ∷ codes "sync"
    ∷ codes "bin"
    ∷ codes "daemon"
    ∷ codes "adm"
    ∷ []

-- `role or "viewer"`
abbrev pub role_or_viewer : Role → Role
role_or_viewer (other []) = viewer
role_or_viewer (other (c ∷ r)) = other (c ∷ r)
role_or_viewer admin = admin
role_or_viewer Role.plain_user = Role.plain_user
role_or_viewer viewer = viewer

abbrev is_missing : Role → Bool
is_missing (other []) = true
is_missing (other (c ∷ r)) = false
is_missing admin = false
is_missing Role.plain_user = false
is_missing viewer = false

-- `any(body.get(k) for k in SHARE_ONLY_FORBIDS)`
unfoldable pub has_forbidden_value : AddBody → Bool
has_forbidden_value q =
    not (is_empty q.password)
    || not (is_empty q.ssh_key)
    || q.terminal
    || not (is_empty q.term_pass)
    || q.sudo
    || not (is_missing q.role)

max_port : ℕ → List User → ℕ
max_port p [] = p
max_port p (u ∷ us) = max_port (if ltb p u.term_port then u.term_port else p) us

-- `max([TERM_PORT_BASE - 1] + ports) + 1`
unfoldable pub next_port : List User → ℕ
unfolding max_port
next_port us = max_port 7700 us + 1

-- `want_unix`, a terminal being a login of unix
abbrev pub wants_unix : AddBody → Bool
wants_unix q = q.unix || q.share || q.terminal

module _ (t : Tools) (rq : Request) where
  -- The refusals that need nothing but the body and the users.
  unfoldable pub checked_body : List User → AddBody → Handler (Unit {0})
  checked_body us q = do
    let name = strip_space q.name
    let key = strip_space q.ssh_key
    let pass = strip_space q.term_pass
    refuse_if (not (matches_user_name name) || text_in name user_name_deny) bad_name
    refuse_if (is_there (find_user name us)) name_exists
    refuse_if (not (is_role (role_or_viewer q.role))) bad_role
    refuse_if (q.share && has_forbidden_value q) share_only
    refuse_if (not q.share && ltb (length q.password) 8) short_password
    refuse_if (q.sudo && not (q.unix || q.share)) sudo_needs_unix
    refuse_if (wants_unix q && not (not (is_empty key) || q.terminal || q.share)) unix_needs_key
    refuse_if (q.terminal && (is_empty pass || is_unquotable pass)) bad_term_pass
    refuse_if (wants_unix q && text_in name t.passwd_names) name_taken

  -- `None` for a share-only account
  unfoldable pub new_hash : AddBody → Handler (Option Text)
  new_hash q =
      if q.share
      then return none
      else (do h ← need (hash_password t rq.salt q.password) hash_failed; return (some h))

  -- The login of unix, where one is wanted.
  unfoldable pub make_unix : Text → Option Text → AddBody → Handler (Unit {0})
  make_unix name h q = when (wants_unix q) (do
    call (if q.share then unix_nologin name else unix_added name)
    refuse_if (not (t.unix_add name)) unix_failed
    when (not (is_empty (strip_space q.ssh_key))) (call (unix_key name (strip_space q.ssh_key)))
    when q.sudo
        (do call (sudo_granted name); call (unix_hash name (elim h [ none ↦ [] | some s ↦ s ]))))

  -- The entry of users.json.
  unfoldable pub new_user : Text → Option Text → List User → AddBody → User
  new_user name h us q = record {
    name = name;
    role = if q.share then viewer else role_or_viewer q.role;
    hash = h;
    disabled = false;
    unix = wants_unix q;
    sudo = q.sudo;
    share = q.share;
    terminal = q.terminal;
    term_port = if q.terminal then next_port us else 0;
    term_pass = if q.terminal then strip_space q.term_pass else [];
  }

  -- `user_add`; the result is the port of the terminal, 0 where there is none
  unfoldable pub user_add : AddBody → Handler ℕ
  user_add q = do
    us ← ask read_users
    checked_body us q
    h ← new_hash q
    make_unix (strip_space q.name) h q
    let u = new_user (strip_space q.name) h us q
    write_users (us ++ (u ∷ []))
    when q.terminal (apply_terminals (us ++ (u ∷ [])))
    return u.term_port

  -- `api_users_add`
  unfoldable pub users_add : AddBody → Handler ℕ
  users_add q = do sess ← user_admin_guard rq; port ← user_add q; call saved; return port
