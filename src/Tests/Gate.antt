-- ===== src/Tests/Gate.antt =====
-- Runs of the gate of webd.py, and its theorems at concrete inputs.
use pipe_os.Prelude.{
  ◌≡◌, refl, ◌⊎◌, true, false, Option, none, some, [], ◌++◌, Text, text_eq, codes,
}
use pipe_os.Prelude.Ascii.{text_in, starts_with}
use pipe_os.Webd.{Session, is_admin}
use pipe_os.Webd.Sessions.{valid_session}
use pipe_os.Webd.Callers.{authed}
use pipe_os.Webd.Headers.{Http, path_of, request_of, same_origin}
use pipe_os.Webd.Paths.{handlers, open_posts, peer_posts, viewer_posts, public_pages, readers}
use pipe_os.Webd.Gate.{
  served, fenced, not_your_role, do_post, do_get, file_up, is_public, under, post_locked, post_as,
  cert_fence, role_allows, reader_as,
}
use pipe_os.Webd.Gate.Granted.{session_now, Granted, do_post-Granted, do_post_with_session}
use pipe_os.Webd.Gate.Reads.{Reads, do_get-Reads}
use pipe_os.Tests.TwoUsers.{token_a, token_b, two_users, eve_session}

abbrev get_with : Text → Text → Option Text → Http
get_with target cookies peer = record {
  target = target;
  cookies = cookies;
  origin = none;
  host = some (codes "box.local");
  peer = peer;
  now = 1100;
  salt = codes "ab";
  token = token_b;
}

abbrev admin_cookie : Text
admin_cookie = codes "theme=dark; session=" ++ token_a

abbrev eve_cookie : Text
eve_cookie = codes "session=" ++ token_b

abbrev me : Text
me = codes "a1b2"

abbrev adds : Http
adds = get_with (codes "/api/users/add?x=1") admin_cookie none

abbrev add_path : Text
add_path = codes "/api/users/add"

adds_run : (do_post me adds two_users).0 ≡ served add_path
unfolding do_post path_of post_locked same_origin text_in open_posts post_as authed request_of
    cert_fence role_allows handlers
adds_run = refl

adds_closed : text_in add_path open_posts ≡ false
unfolding text_in open_posts
adds_closed = refl

adds_no_upload : text_eq add_path file_up ≡ false
adds_no_upload = refl

do_post-Granted_example :
    (same_origin adds ≡ true)
    × (add_path ≡ path_of adds)
    × (text_in add_path handlers ≡ true)
    × Granted me add_path none (request_of adds) two_users
do_post-Granted_example =
    do_post-Granted me adds two_users add_path adds_run adds_closed adds_no_upload

-- A member's certificate, the session of a viewer, and a path of neither.
abbrev eve_adds : Http
eve_adds = get_with add_path eve_cookie (some (codes "c3d4"))

eve_live : session_now (request_of eve_adds) two_users ≡ some eve_session
unfolding request_of valid_session
eve_live = refl

eve_origin : same_origin eve_adds ≡ true
unfolding same_origin
eve_origin = refl

eve_no_upload : text_eq (path_of eve_adds) file_up ≡ false
unfolding path_of
eve_no_upload = refl

eve_closed : text_in (path_of eve_adds) open_posts ≡ false
unfolding text_in open_posts path_of
eve_closed = refl

eve_listed : text_in (path_of eve_adds) handlers ≡ true
unfolding text_in handlers path_of
eve_listed = refl

do_post_with_session_example : (do_post me eve_adds two_users).0 ≡ served (path_of eve_adds)
do_post_with_session_example =
    do_post_with_session me (codes "c3d4") eve_adds two_users eve_session eve_origin refl eve_live
      eve_no_upload eve_closed eve_listed

-- Without the session, or without the certificate, the request is refused.
certificate_alone : (do_post me (get_with add_path [] (some (codes "c3d4"))) two_users).0 ≡ fenced
unfolding do_post path_of post_locked same_origin text_in open_posts post_as authed request_of
    cert_fence peer_posts
certificate_alone = refl

viewer_alone : (do_post me (get_with add_path eve_cookie none) two_users).0 ≡ not_your_role
unfolding do_post path_of post_locked same_origin text_in open_posts post_as authed request_of
    cert_fence role_allows viewer_posts
viewer_alone = refl

abbrev reads : Http
reads = get_with (codes "/api/status") eve_cookie none

reads_run : (do_get me reads two_users).0 ≡ served (codes "/api/status")
unfolding do_get path_of starts_with is_public text_in public_pages readers reader_as authed
    request_of cert_fence
reads_run = refl

reads_guarded : is_public (codes "/api/status") ≡ false
unfolding is_public text_in public_pages starts_with
reads_guarded = refl

do_get-Reads_example :
    ((under (codes "/terminal") (path_of reads) ≡ true)
      × ((s : Session) × (session_now (request_of reads) two_users ≡ some s)
          × (is_admin s.role ≡ true)))
    ⊎ ((codes "/api/status" ≡ path_of reads)
        × Reads me (codes "/api/status") none (request_of reads) two_users)
do_get-Reads_example = do_get-Reads me reads two_users (codes "/api/status") reads_run reads_guarded
