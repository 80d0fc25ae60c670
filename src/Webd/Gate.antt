-- ===== src/Webd/Gate.antt =====
-- webd.py, `do_GET` and `do_POST`: which handler a request reaches, if any.
pub mod Granted
pub mod Reads
use pipe_os.Prelude.{
  Bool, true, false, ◌&&◌, ◌||◌, not, Option, none, some, List, [], ◌∷◌, ◌++◌, if◌then◌else◌,
  length, drop, Text, text_eq, codes,
}
use pipe_os.Prelude.Fallible.{Fallible, ok, err}
use pipe_os.Prelude.Ascii.{starts_with, text_in}
use pipe_os.Webd.{
  Role, admin, plain_user, viewer, other, is_admin, Session, Box, Request, Call, event, Refusal,
}
use pipe_os.Webd.Callers.{cookie_session, authed, peer_is}
use pipe_os.Webd.Headers.{Http, path_of, request_of, same_origin}
use pipe_os.Webd.Paths.{
  peer_gets, self_gets, peer_posts, self_posts, open_posts, viewer_posts, user_posts, readers,
  handlers, public_pages,
}

-- The handler of a path, or the refusal: 403 for another origin, 401, 403 for a certificate, 403 for
-- the role, and 404.
pub data Answer : Type 0 where
  served : Text → Answer
  cross_origin unauthorized fenced not_your_role not_found : Answer

abbrev is_known : Fallible Refusal (Option Session) → Bool
is_known (ok none) = false
is_known (ok (some s)) = true
is_known (err e) = false

-- `_cert_fence`: whether the path is refused; `me` is `cluster.self_id()`
unfoldable pub cert_fence : Text → List Text → List Text → Text → Request → Box → Bool × Box
cert_fence me peer_ok self_ok path rq b = elim rq.peer [
  | none ↦ (false, b)
  | some who ↦
      let (s, b') = cookie_session rq b in
      if is_known s
      then (false, b')
      else (not (text_in path peer_ok || (text_eq who me && text_in path self_ok)), b')
]

-- What the roles may post.
unfoldable pub role_allows : Role → Text → Bool
role_allows admin path = true
role_allows plain_user path = text_in path user_posts
role_allows viewer path = text_in path viewer_posts
role_allows (other r) path = true

-- `handlers.get(path)`, with the line of `activity`
abbrev post_handler : Session → Text → Box → Answer × Box
post_handler s path b =
    if text_in path handlers
    then (served path, record b { calls = b.calls ++ (event s.user path ∷ []) })
    else (not_found, b)

-- The end of `_do_post_locked`, from the result of `authed` on.
unfoldable pub post_as :
    Text → Text → Request → Fallible Refusal (Option Session) × Box → Answer × Box
post_as me path rq (err e, b) = (unauthorized, b)
post_as me path rq (ok none, b) = (unauthorized, b)
post_as me path rq (ok (some s), b) =
    let (refused, b') = cert_fence me peer_posts self_posts path rq b in
    if refused
    then (fenced, b')
    else if role_allows s.role path
    then post_handler s path b'
    else (not_your_role, b')

-- `_do_post_locked`
unfoldable pub post_locked : Text → Http → Box → Answer × Box
post_locked me h b =
    if not (same_origin h)
    then (cross_origin, b)
    else if text_in (path_of h) open_posts
    then (served (path_of h), b)
    else post_as me (path_of h) (request_of h) (authed (request_of h) b)

abbrev pub file_up : Text
file_up = codes "/api/file-up"

abbrev is_viewer : Role → Bool
is_viewer admin = false
is_viewer plain_user = false
is_viewer viewer = true
is_viewer (other r) = false

unfoldable pub upload_as : Fallible Refusal (Option Session) × Box → Answer × Box
upload_as (err e, b) = (unauthorized, b)
upload_as (ok none, b) = (unauthorized, b)
upload_as (ok (some s), b) = if is_viewer s.role then (not_your_role, b) else (served file_up, b)

-- `do_POST`
unfoldable pub do_post : Text → Http → Box → Answer × Box
do_post me h b =
    if text_eq (path_of h) file_up
    then (if not (same_origin h) then (cross_origin, b) else upload_as (authed (request_of h) b))
    else post_locked me h b

-- `path == p or path.startswith(p + "/")`
abbrev pub under : Text → Text → Bool
under p path = text_eq path p || starts_with (p ++ (b'/' ∷ [])) path

-- The paths of `do_GET` that ask for nothing.
unfoldable pub is_public : Text → Bool
is_public path = text_in path public_pages || starts_with (codes "/static/") path

-- `proxy_terminal`, up to the connection to the terminal
unfoldable pub terminal_as : Fallible Refusal (Option Session) × Box → Answer × Box
terminal_as (err e, b) = (unauthorized, b)
terminal_as (ok none, b) = (unauthorized, b)
terminal_as (ok (some s), b) =
    (if is_admin s.role then served (codes "/terminal") else not_your_role, b)

unfoldable pub docs_as : Text → Fallible Refusal (Option Session) × Box → Answer × Box
docs_as path (err e, b) = (unauthorized, b)
docs_as path (ok none, b) = (unauthorized, b)
docs_as path (ok (some s), b) = (served path, b)

unfoldable pub reader_as :
    Text → Text → Request → Fallible Refusal (Option Session) × Box → Answer × Box
reader_as me path rq (err e, b) = (unauthorized, b)
reader_as me path rq (ok none, b) = (unauthorized, b)
reader_as me path rq (ok (some s), b) =
    let (refused, b') = cert_fence me peer_gets self_gets path rq b in
    (if refused then fenced else served path, b')

-- `do_GET`
unfoldable pub do_get : Text → Http → Box → Answer × Box
do_get me h b =
    if under (codes "/terminal") (path_of h)
    then terminal_as (cookie_session (request_of h) b)
    else if is_public (path_of h)
    then (served (path_of h), b)
    else if under (codes "/api/docs") (path_of h)
    then docs_as (path_of h) (authed (request_of h) b)
    else if text_in (path_of h) readers
    then reader_as me (path_of h) (request_of h) (authed (request_of h) b)
    else (not_found, b)
