-- ===== src/Webd/Users.antt =====
-- webd.py, the store of users and what is written of them for the terminals.
use pipe_os.Prelude.{
  ℕ, Bool, true, false, ◌&&◌, ◌||◌, not, Option, none, some, List, [], ◌∷◌, ◌++◌, ◌==◌,
  if◌then◌else◌, length, Text, text_eq, is_empty,
}
use pipe_os.Prelude.Fallible.{ok}
use pipe_os.Prelude.Ascii.{has_char}
use pipe_os.Webd.{
  Role, admin, is_admin, User, missing, unreadable, listed, AdminConf, unclaimed, no_hash, hashed,
  Terminal, services_applied, terminals_restart, Box, Handler, ◌>>=◌, when, ask, call,
}
use pipe_os.Webd.Sessions.{admin_name}

-- `u.get("role") == "admin" and not u.get("disabled")`
abbrev pub enabled_admin : User → Bool
enabled_admin u = is_admin u.role && not u.disabled

unfoldable pub any_user : (User → Bool) → List User → Bool
any_user p [] = false
any_user p (u ∷ us) = p u || any_user p us

-- An account that has no fields but these.
abbrev pub bare_user : Text → Role → Option Text → User
bare_user name role hash = record {
  name = name;
  role = role;
  hash = hash;
  disabled = false;
  unix = false;
  sudo = false;
  share = false;
  terminal = false;
  term_port = 0;
  term_pass = [];
}

-- `[{"name": "admin", …, "hash": h}] if h else []`, h being `legacy_admin_hash()`
unfoldable pub legacy_users : AdminConf → List User
legacy_users unclaimed = []
legacy_users no_hash = []
legacy_users (hashed h) = bare_user admin_name admin (some h) ∷ []

-- `read_users`
unfoldable pub read_users : Box → List User
unfolding any_user legacy_users
read_users b = elim b.users_conf [
  | missing ↦ legacy_users b.admin_conf
  | unreadable ↦ legacy_users b.admin_conf
  | listed us ↦ if any_user enabled_admin us then us else legacy_users b.admin_conf
]

-- `find_user`
unfoldable pub find_user : Text → List User → Option User
find_user name [] = none
find_user name (u ∷ us) = if text_eq u.name name then some u else find_user name us

-- The list when the entry that `find_user` returned has been changed in place.
unfoldable pub change_user : Text → User → List User → List User
change_user name v [] = []
change_user name v (u ∷ us) = if text_eq u.name name then v ∷ us else u ∷ change_user name v us

-- `users.remove(u)` of the entry that `find_user` returned
unfoldable pub remove_user : Text → List User → List User
remove_user name [] = []
remove_user name (u ∷ us) = if text_eq u.name name then us else u ∷ remove_user name us

-- `_last_admin_guard`
unfoldable pub last_admin_guard : List User → Text → Bool
unfolding any_user
last_admin_guard us name = not (any_user (λ u. not (text_eq u.name name) && enabled_admin u) us)

-- `write_users`
unfoldable pub write_users : List User → Handler (Unit {0})
write_users us b = (ok tt, record b { users_conf = listed us })

-- `any(c in s for c in "'\n\r\0")`
abbrev pub is_unquotable : Text → Bool
is_unquotable s = has_char 39 s || has_char 10 s || has_char 13 s || has_char 0 s

-- The accounts that `write_terminals` does not pass over.
unfoldable pub has_terminal : User → Bool
unfolding has_char
has_terminal u =
    (u.terminal && u.unix && not (is_empty u.term_pass) && not (u.term_port == 0) && not u.disabled)
    && not (is_unquotable u.term_pass)

-- The lines of `write_terminals`.
unfoldable pub terminals_of : List User → List Terminal
unfolding has_terminal
terminals_of [] = []
terminals_of (u ∷ us) =
    if has_terminal u
    then record { owner = u.name; port = u.term_port; pass = u.term_pass } ∷ terminals_of us
    else terminals_of us

-- `write_terminals`
unfoldable pub write_terminals : List User → Handler ℕ
unfolding terminals_of
write_terminals us b =
    (ok (length (terminals_of us)), record b { terminals_conf = terminals_of us })

-- `svcs["terminals"] = on`, `write_services` and `apply_services`
abbrev pub switch_terminals : Bool → Handler (Unit {0})
switch_terminals on b =
    (ok tt, record b { terminals_on = on; calls = b.calls ++ (services_applied on ∷ []) })

-- `apply_terminals`
unfoldable pub apply_terminals : List User → Handler (Unit {0})
unfolding write_terminals
apply_terminals us = do
  n ← write_terminals us
  on ← ask (λ b. b.terminals_on)
  if not (n == 0) && not on
      then switch_terminals true
      else when on (if n == 0 then switch_terminals false else call terminals_restart)
