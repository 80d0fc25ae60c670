-- ===== src/Webd/Gate/Granted.antt =====
-- webd.py, who reaches the handlers of `do_POST` and `do_GET`.
use pipe_os.Prelude.{
  ◌≡◌, refl, sym, ap, ◌∙◌, ◌⊎◌, inl, inr, true, false, Option, none, some, List, Text, text_eq,
  text_eq_iff, text_eq_self, arith, Bool-cases, Option-cases,
}
use mathlib.Core.Path.{subst}
use pipe_os.Prelude.Fallible.{Fallible, ok, err, ok-injective}
use pipe_os.Prelude.Ascii.{text_in}
use pipe_os.Webd.{Refusal, Session, Box, Request}
use pipe_os.Webd.Sessions.{valid_session}
use pipe_os.Webd.Callers.{cookie_session, authed, member_session}
use pipe_os.Webd.Headers.{Http, path_of, request_of, same_origin}
use pipe_os.Webd.Paths.{peer_posts, self_posts, open_posts, handlers}
use pipe_os.Webd.Gate.{
  upload_as, served, cert_fence, role_allows, post_as, post_locked, do_post, file_up,
}

-- The live session of the request's cookie.
abbrev pub session_now : Request → Box → Option Session
session_now rq b = elim rq.cookie [
  | none ↦ none
  | some tok ↦ (valid_session tok rq.now b.sessions).0
]

pub cookie_session_lem : (rq : Request) (b : Box) → (cookie_session rq b).0 ≡ ok (session_now rq b)
unfolding cookie_session
cookie_session_lem rq b = ground arith

-- The paths that a member's certificate may ask for.
abbrev pub Allowed : Text → List Text → List Text → Text → Text → Type 0
Allowed me peer_ok self_ok who path =
    (text_in path peer_ok ≡ true) ⊎ ((who ≡ me) × (text_in path self_ok ≡ true))

-- A session whose role permits the path, or a member's certificate that comes with a session or is
-- allowed it.
abbrev pub Granted : Text → Text → Option Text → Request → Box → Type 0
Granted me path none rq b =
    (s : Session) × (session_now rq b ≡ some s) × (role_allows s.role path ≡ true)
Granted me path (some who) rq b =
    ((s : Session) × (session_now rq b ≡ some s)) ⊎ Allowed me peer_posts self_posts who path

pub cert_fence-Allowed :
    (me path who : Text) (peer_ok self_ok : List Text) (rq : Request) (b : Box)
    → rq.peer ≡ some who
    → (cert_fence me peer_ok self_ok path rq b).0 ≡ false
    → ((s : Session) × (session_now rq b ≡ some s)) ⊎ Allowed me peer_ok self_ok who path
unfolding cert_fence
cert_fence-Allowed me path who peer_ok self_ok rq b member passed =
    elim (Option-cases (session_now rq b)) [
      | inr (s, here) ↦ inl (s, here)
      | inl alone ↦ elim (Bool-cases (text_in path peer_ok)) [
        | inl listed ↦ inr (inl listed)
        | inr unlisted ↦ inr (
            inr (
              ground (arith, cookie_session_lem rq b, text_eq_iff who me),
              ground (arith, cookie_session_lem rq b),
            ))
      ]
    ]

-- `authed` of a connection without a certificate is the session of the cookie.
pub authed-session :
    (rq : Request) (b : Box) → rq.peer ≡ none → (authed rq b).0 ≡ ok (session_now rq b)
unfolding authed
authed-session rq b alone = ground (arith, cookie_session_lem rq b)

pub authed-member :
    (rq : Request) (b : Box) (who : Text)
    → rq.peer ≡ some who
    → authed rq b ≡ (ok (some (member_session who)), b)
unfolding authed
authed-member rq b who member = ground arith

-- The checks that `_do_post_locked` has made of the caller, with the box that `authed` left.
post_as_served :
    (me path : Text) (rq : Request) (r : Fallible Refusal (Option Session) × Box) (p : Text)
    → (post_as me path rq r).0 ≡ served p
    → (s : Session) × (r.0 ≡ ok (some s))
      × (p ≡ path)
      × (text_in path handlers ≡ true)
      × (role_allows s.role path ≡ true)
      × ((cert_fence me peer_posts self_posts path rq r.1).0 ≡ false)
unfolding post_as
post_as_served me path rq (err e, b) p reached = absurd (ground arith)
post_as_served me path rq (ok none, b) p reached = absurd (ground arith)
post_as_served me path rq (ok (some s), b) p reached =
    (s, refl, ground arith, ground arith, ground arith, ground arith)

post_as-Granted :
    (me path : Text) (rq : Request) (b : Box) (p : Text) (peer : Option Text)
    → rq.peer ≡ peer
    → (post_as me path rq (authed rq b)).0 ≡ served p
    → (p ≡ path) × (text_in path handlers ≡ true) × Granted me path peer rq b
post_as-Granted me path rq b p none alone reached =
    let (s, known, same, listed, allows, passed) =
      post_as_served me path rq (authed rq b) p reached in
    (same, listed, (s, ok-injective (sym (authed-session rq b alone) ∙ known), allows))
post_as-Granted me path rq b p (some who) member reached =
    let (s, known, same, listed, allows, passed) =
      post_as_served me path rq (authed rq b) p reached in
    (
      same,
      listed,
      cert_fence-Allowed me path who peer_posts self_posts rq b member (
          ap (λ r. (cert_fence me peer_posts self_posts path rq r.1).0)
            (sym (authed-member rq b who member))
          ∙ passed),
    )

upload_as_served :
    (r : Fallible Refusal (Option Session) × Box) (p : Text)
    → (upload_as r).0 ≡ served p
    → p ≡ file_up
unfolding upload_as
upload_as_served (err e, b) p reached = absurd (ground arith)
upload_as_served (ok none, b) p reached = absurd (ground arith)
upload_as_served (ok (some s), b) p reached = ground arith

pub peer-request_of : (h : Http) → (request_of h).peer ≡ h.peer
unfolding request_of
peer-request_of h = refl

-- A POST that reaches a handler, other than the upload and those that ask for no session, passes the
-- test of the origin, for a path of the table, with a session whose role permits it or with a member's
-- certificate that may ask for it or that a session comes with.
pub do_post-Granted :
    (me : Text) (h : Http) (b : Box) (p : Text)
    → (do_post me h b).0 ≡ served p
    → text_in p open_posts ≡ false
    → text_eq p file_up ≡ false
    → (same_origin h ≡ true)
      × (p ≡ path_of h)
      × (text_in p handlers ≡ true)
      × Granted me p h.peer (request_of h) b
unfolding do_post post_locked
do_post-Granted me h b p reached closed other = elim (Bool-cases (same_origin h)) [
  | inr cross ↦ absurd (ground arith)
  | inl ours ↦ elim (Bool-cases (text_eq (path_of h) file_up)) [
    | inl upload ↦
        absurd (ground (arith, upload_as_served (authed (request_of h) b) p, text_eq_self file_up))
    | inr plain ↦ elim (Bool-cases (text_in (path_of h) open_posts)) [
      | inl open_ ↦ absurd (ground arith)
      | inr guarded ↦
          let g =
            post_as-Granted me (path_of h) (request_of h) b p h.peer (peer-request_of h)
              (ground arith) in
          (
            ours,
            g.0,
            subst (λ x. text_in x handlers ≡ true) (sym g.0) g.1,
            subst (λ x. Granted me x h.peer (request_of h) b) (sym g.0) g.2,
          )
    ]
  ]
]

post_as_with_session :
    (me path who : Text) (rq : Request) (b : Box) (s : Session)
    → rq.peer ≡ some who
    → session_now rq b ≡ some s
    → text_in path handlers ≡ true
    → (post_as me path rq (authed rq b)).0 ≡ served path
unfolding post_as cert_fence role_allows
post_as_with_session me path who rq b s member live listed =
    rw (authed-member rq b who member) (ground (arith, cookie_session_lem rq b))

-- A POST that the test of the origin lets through, with a member's certificate and a live session,
-- reaches the handler of any path of the table but the upload and those that ask for no session,
-- whatever the role of the session: neither the paths that a member's certificate may ask for nor those
-- of the roles viewer and user are looked at.
pub do_post_with_session :
    (me who : Text) (h : Http) (b : Box) (s : Session)
    → same_origin h ≡ true
    → h.peer ≡ some who
    → session_now (request_of h) b ≡ some s
    → text_eq (path_of h) file_up ≡ false
    → text_in (path_of h) open_posts ≡ false
    → text_in (path_of h) handlers ≡ true
    → (do_post me h b).0 ≡ served (path_of h)
unfolding do_post post_locked
do_post_with_session me who h b s ours member live other closed listed =
    rw (other, ours, closed)
      (post_as_with_session me (path_of h) who (request_of h) b s (peer-request_of h ∙ member) live
        listed)
