-- ===== src/Webd/Headers.antt =====
-- webd.py, what a request's headers say: its path, the cookie of the session, and its origin.
use pipe_os.Prelude.{
  ℕ, Bool, true, ◌&&◌, ◌||◌, not, Option, none, some, List, [], ◌∷◌, ◌==◌, if◌then◌else◌, drop,
  Text, text_eq, is_empty, codes, split,
}
use pipe_os.Prelude.Ascii.{strip_space, starts_with, lower}
use pipe_os.Webd.{Request}

-- A request as it comes in; `peer` is the member whose certificate the connection presented.
pub record Http : Type 0 where
  pub target : Text
  pub cookies : Text
  pub origin : Option Text
  pub host : Option Text
  pub peer : Option Text
  pub now : ℕ
  pub salt : Text
  pub token : Text

-- `s.partition(chr(c))[0]`
unfoldable pub until : ℕ → Text → Text
until c [] = []
until c (d ∷ s) = if d == c then [] else d ∷ until c s

-- `s.partition(chr(c))[2]`
unfoldable pub past : ℕ → Text → Text
past c [] = []
past c (d ∷ s) = let rest = past c s in if d == c then s else rest

-- `self.path.split("?")[0]`
unfoldable pub path_of : Http → Text
unfolding until
path_of h = until b'?' h.target

session_in : List Text → Option Text
unfolding until past strip_space
session_in [] = none
session_in (part ∷ parts) =
    let rest = session_in parts in
    if text_eq (until b'=' (strip_space part)) (codes "session")
    then some (past b'=' (strip_space part))
    else rest

-- `cookie_token`
unfoldable pub cookie_token : Http → Option Text
unfolding session_in split
cookie_token h = session_in (split b';' h.cookies)

-- What the guards and handlers are given of it.
unfoldable pub request_of : Http → Request
unfolding cookie_token
request_of h = record {
  now = h.now;
  cookie = cookie_token h;
  peer = h.peer;
  salt = h.salt;
  token = h.token;
}

-- `[^/:]+` at the start of a text, greedily; empty where it does not match
host_part : Text → Text
host_part [] = []
host_part (c ∷ s) = if c == b'/' || c == b':' then [] else c ∷ host_part s

-- The group of `https?://([^/:]+)` at the start of a text, empty where it does not match.
unfoldable pub origin_host : Text → Text
unfolding host_part starts_with
origin_host s =
    if starts_with (codes "http://") s
    then host_part (drop 7 s)
    else if starts_with (codes "https://") s
    then host_part (drop 8 s)
    else []

-- `self.headers.get("Host") or ""`
abbrev pub text_of : Option Text → Text
text_of none = []
text_of (some s) = s

-- `same_origin`
unfoldable pub same_origin : Http → Bool
unfolding origin_host until lower
same_origin h =
    if is_empty (text_of h.origin)
    then true
    else not (is_empty (origin_host (text_of h.origin)))
      && text_eq (lower (origin_host (text_of h.origin))) (lower (until b':' (text_of h.host)))
