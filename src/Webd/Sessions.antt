-- ===== src/Webd/Sessions.antt =====
-- webd.py, the sessions: a file for each token under SESS_DIR, whose mtime is the last use.
pub mod Dropped
use pipe_os.Prelude.{
  ℕ, ◌-◌, ◌*◌, Bool, true, false, ◌&&◌, ◌||◌, not, Option, none, some, List, [], ◌∷◌, ltb, leb,
  ◌==◌, if◌then◌else◌, length, Text, text_eq, is_empty, codes,
}
use pipe_os.Prelude.Dict.{Dict, get, set, del}
use pipe_os.Webd.{Role, admin, role_or_admin, Body, bare, fields, SessionFile, Session}

-- SESSION_IDLE_S
abbrev pub session_idle_s : ℕ
session_idle_s = 24 * 3600

abbrev pub admin_name : Text
admin_name = codes "admin"

all_hex : Text → Bool
all_hex [] = true
all_hex (c ∷ s) = ((leb b'0' c && leb c b'9') || (leb b'a' c && leb c b'f')) && all_hex s

-- `re.fullmatch(r"[0-9a-f]{64}", tok)`
unfoldable pub matches_token : Text → Bool
unfolding all_hex
matches_token tok = (length tok == 64) && all_hex tok

-- `new_session`; `tok` is what `secrets` draws
unfoldable pub new_session : Text → Text → Role → ℕ → Dict SessionFile → Dict SessionFile
unfolding set
new_session tok user role now d = set tok (record { mtime = now; body = fields user role }) d

-- What the body of a session's file stands for.
unfoldable pub session_of : Body → Session
session_of bare = record { user = admin_name; role = admin; peer = none }
session_of (fields user role) = record {
  user = if is_empty user then admin_name else user;
  role = role_or_admin role;
  peer = none;
}

-- The file of a session when `valid_session` is done with it: gone, or touched.
unfoldable pub used : ℕ → SessionFile → Option SessionFile
used now f = if ltb session_idle_s (now - f.mtime) then none else some (record f { mtime = now })

-- `valid_session`
unfoldable pub valid_session : Text → ℕ → Dict SessionFile → Option Session × Dict SessionFile
unfolding matches_token session_of used get set del
valid_session tok now d = if not (matches_token tok) then (none, d) else elim (get tok d) [
  | none ↦ (none, d)
  | some f ↦ elim (used now f) [
    | none ↦ (none, del tok d)
    | some f' ↦ (some (session_of f.body), set tok f' d)
  ]
]

-- `s and s["user"] == name`
abbrev pub is_of : Text → Option Session → Bool
is_of name none = false
is_of name (some s) = text_eq s.user name

-- One round of the loop of `drop_user_sessions`.
unfoldable pub drop_if_of : Text → ℕ → Text → Dict SessionFile → Dict SessionFile
unfolding valid_session del
drop_if_of name now tok d =
    let (s, d') = valid_session tok now d in if is_of name s then del tok d' else d'

unfoldable pub drop_listed : Text → ℕ → List Text → Dict SessionFile → Dict SessionFile
unfolding drop_if_of
drop_listed name now [] d = d
drop_listed name now (tok ∷ toks) d = drop_listed name now toks (drop_if_of name now tok d)

-- `os.listdir(SESS_DIR)`
unfoldable pub listdir : Dict SessionFile → List Text
listdir [] = []
listdir ((tok, f) ∷ d) = tok ∷ listdir d

-- `drop_user_sessions`
unfoldable pub drop_user_sessions : Text → ℕ → Dict SessionFile → Dict SessionFile
unfolding drop_listed listdir
drop_user_sessions name now d = drop_listed name now (listdir d) d

-- `drop_session`
unfoldable pub drop_session : Text → Dict SessionFile → Dict SessionFile
unfolding matches_token del
drop_session tok d = if matches_token tok then del tok d else d
