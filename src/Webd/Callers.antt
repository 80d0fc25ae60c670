-- ===== src/Webd/Callers.antt =====
-- webd.py, who a request comes from: the session of its cookie or a member's certificate, and the
-- guards that the handlers of users and secrets begin with.
use pipe_os.Prelude.{
  ℕ, Bool, true, false, Option, none, some, ◌++◌, if◌then◌else◌, Text, text_eq, codes,
}
use pipe_os.Prelude.Fallible.{ok, err}
use pipe_os.Webd.{Role, admin, is_admin, Session, Request, admin_only, Handler, ◌>>=◌}
use pipe_os.Webd.Sessions.{valid_session, drop_user_sessions, new_session}

-- `valid_session(self.cookie_token())`
unfoldable pub cookie_session : Request → Handler (Option Session)
unfolding valid_session
cookie_session rq b = elim rq.cookie [
  | none ↦ (ok none, b)
  | some tok ↦ let (s, d) = valid_session tok rq.now b.sessions in (ok s, record b { sessions = d })
]

-- What `peer` makes of the member whose certificate the connection presented.
abbrev pub member_session : Text → Session
member_session who = record { user = codes "cluster:" ++ who; role = admin; peer = some who }

-- `authed`
unfoldable pub authed : Request → Handler (Option Session)
unfolding cookie_session
authed rq b = elim rq.peer [
  | none ↦ cookie_session rq b
  | some who ↦ (ok (some (member_session who)), b)
]

-- `if not sess or sess.get("role") != "admin": self.err(403, …)`
abbrev pub admin_or_refuse : Option Session → Handler Session
admin_or_refuse none b = (err admin_only, b)
admin_or_refuse (some s) b = (if is_admin s.role then ok s else err admin_only, b)

-- `_user_admin_guard`
unfoldable pub user_admin_guard : Request → Handler Session
unfolding authed
user_admin_guard rq = do s ← authed rq; admin_or_refuse s

-- `_session_admin_guard`
unfoldable pub session_admin_guard : Request → Handler Session
unfolding cookie_session
session_admin_guard rq = do s ← cookie_session rq; admin_or_refuse s

abbrev pub peer_is : Text → Option Text → Bool
peer_is me none = false
peer_is me (some who) = text_eq who me

-- `_peer_guard`; `me` is `cluster.self_id()`
unfoldable pub peer_guard : Text → Bool → Request → Handler Session
unfolding session_admin_guard
peer_guard me true rq b = elim rq.peer [
  | none ↦ session_admin_guard rq b
  | some who ↦ if text_eq who me then (ok (member_session who), b) else session_admin_guard rq b
]
peer_guard me false rq b = elim rq.peer [
  | none ↦ (err admin_only, b)
  | some who ↦ if text_eq who me then (err admin_only, b) else (ok (member_session who), b)
]

-- `drop_user_sessions` and `new_session` on the files of the box.
abbrev pub end_sessions : Text → ℕ → Handler (Unit {0})
end_sessions name now b = (ok tt, record b { sessions = drop_user_sessions name now b.sessions })

abbrev pub start_session : Text → Text → Role → ℕ → Handler (Unit {0})
start_session tok name role now b =
    (ok tt, record b { sessions = new_session tok name role now b.sessions })
