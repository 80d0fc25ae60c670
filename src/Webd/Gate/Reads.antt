-- ===== src/Webd/Gate/Reads.antt =====
-- webd.py, who reaches the pages and readers of `do_GET`.
use pipe_os.Prelude.{
  ◌≡◌, refl, sym, ap, ◌∙◌, ◌⊎◌, inl, inr, true, false, Option, none, some, Text, arith, Bool-cases,
  codes,
}
use mathlib.Core.Path.{subst}
use pipe_os.Prelude.Fallible.{Fallible, ok, err, ok-injective}
use pipe_os.Prelude.Ascii.{text_in}
use pipe_os.Webd.{Refusal, Session, Box, Request, is_admin}
use pipe_os.Webd.Callers.{cookie_session, authed}
use pipe_os.Webd.Headers.{Http, path_of, request_of}
use pipe_os.Webd.Paths.{peer_gets, self_gets, readers}
use pipe_os.Webd.Gate.{
  served, cert_fence, under, is_public, terminal_as, docs_as, reader_as, do_get,
}
use pipe_os.Webd.Gate.Granted.{
  session_now, cookie_session_lem, Allowed, cert_fence-Allowed, authed-session, authed-member,
  peer-request_of,
}

-- A session, or a member's certificate that comes with one, that may ask for the path, or that asks
-- for a page of the docs.
abbrev pub Reads : Text → Text → Option Text → Request → Box → Type 0
Reads me path none rq b = (s : Session) × (session_now rq b ≡ some s)
Reads me path (some who) rq b =
    ((s : Session) × (session_now rq b ≡ some s))
    ⊎ Allowed me peer_gets self_gets who path
    ⊎ (under (codes "/api/docs") path ≡ true)

reader_as_served :
    (me path : Text) (rq : Request) (r : Fallible Refusal (Option Session) × Box) (p : Text)
    → (reader_as me path rq r).0 ≡ served p
    → (s : Session) × (r.0 ≡ ok (some s))
      × (p ≡ path)
      × ((cert_fence me peer_gets self_gets path rq r.1).0 ≡ false)
unfolding reader_as
reader_as_served me path rq (err e, b) p reached = absurd (ground arith)
reader_as_served me path rq (ok none, b) p reached = absurd (ground arith)
reader_as_served me path rq (ok (some s), b) p reached = (s, refl, ground arith, ground arith)

docs_as_served :
    (path : Text) (r : Fallible Refusal (Option Session) × Box) (p : Text)
    → (docs_as path r).0 ≡ served p
    → (s : Session) × (r.0 ≡ ok (some s)) × (p ≡ path)
unfolding docs_as
docs_as_served path (err e, b) p reached = absurd (ground arith)
docs_as_served path (ok none, b) p reached = absurd (ground arith)
docs_as_served path (ok (some s), b) p reached = (s, refl, ground arith)

terminal_as_served :
    (r : Fallible Refusal (Option Session) × Box) (p : Text)
    → (terminal_as r).0 ≡ served p
    → (s : Session) × (r.0 ≡ ok (some s)) × (is_admin s.role ≡ true)
unfolding terminal_as
terminal_as_served (err e, b) p reached = absurd (ground arith)
terminal_as_served (ok none, b) p reached = absurd (ground arith)
terminal_as_served (ok (some s), b) p reached = (s, refl, ground arith)

reader_as-Reads :
    (me path : Text) (rq : Request) (b : Box) (p : Text) (peer : Option Text)
    → rq.peer ≡ peer
    → (reader_as me path rq (authed rq b)).0 ≡ served p
    → (p ≡ path) × Reads me path peer rq b
reader_as-Reads me path rq b p none alone reached =
    let (s, known, same, passed) = reader_as_served me path rq (authed rq b) p reached in
    (same, (s, ok-injective (sym (authed-session rq b alone) ∙ known)))
reader_as-Reads me path rq b p (some who) member reached =
    let (s, known, same, passed) = reader_as_served me path rq (authed rq b) p reached in
    (
      same,
      elim (cert_fence-Allowed me path who peer_gets self_gets rq b member (
          ap (λ r. (cert_fence me peer_gets self_gets path rq r.1).0)
            (sym (authed-member rq b who member))
          ∙ passed)) [ inl live ↦ inl live | inr allowed ↦ inr (inl allowed) ],
    )

docs_as-Reads :
    (me path : Text) (rq : Request) (b : Box) (p : Text) (peer : Option Text)
    → rq.peer ≡ peer
    → under (codes "/api/docs") path ≡ true
    → (docs_as path (authed rq b)).0 ≡ served p
    → (p ≡ path) × Reads me path peer rq b
docs_as-Reads me path rq b p none alone docs reached =
    let (s, known, same) = docs_as_served path (authed rq b) p reached in
    (same, (s, ok-injective (sym (authed-session rq b alone) ∙ known)))
docs_as-Reads me path rq b p (some who) member docs reached =
    ((docs_as_served path (authed rq b) p reached).2, inr (inr docs))

moved :
    (me p : Text) (h : Http) (b : Box)
    → (p ≡ path_of h) × Reads me (path_of h) h.peer (request_of h) b
    → (p ≡ path_of h) × Reads me p h.peer (request_of h) b
moved me p h b g = (g.0, subst (λ x. Reads me x h.peer (request_of h) b) (sym g.0) g.1)

-- A GET that is served a page that is not public asks for the terminal with the session of an admin,
-- or for a page or reader with a session or with a member's certificate that may ask for it.
pub do_get-Reads :
    (me : Text) (h : Http) (b : Box) (p : Text)
    → (do_get me h b).0 ≡ served p
    → is_public p ≡ false
    → ((under (codes "/terminal") (path_of h) ≡ true)
        × ((s : Session) × (session_now (request_of h) b ≡ some s) × (is_admin s.role ≡ true)))
      ⊎ ((p ≡ path_of h) × Reads me p h.peer (request_of h) b)
unfolding do_get
do_get-Reads me h b p reached closed = elim (Bool-cases (under (codes "/terminal") (path_of h))) [
  | inl terminal ↦
      let (s, known, role) =
        terminal_as_served (cookie_session (request_of h) b) p (rw terminal at reached) in
      inl (terminal, (s, ok-injective (sym (cookie_session_lem (request_of h) b) ∙ known), role))
  | inr elsewhere ↦ elim (Bool-cases (is_public (path_of h))) [
    | inl open_ ↦ absurd (ground arith)
    | inr guarded ↦ inr (elim (Bool-cases (under (codes "/api/docs") (path_of h))) [
      | inl docs ↦ moved me p h b (
          docs_as-Reads me (path_of h) (request_of h) b p h.peer (peer-request_of h) docs
            (rw (elsewhere, guarded, docs) at reached))
      | inr other ↦ elim (Bool-cases (text_in (path_of h) readers)) [
        | inl reader ↦ moved me p h b (
            reader_as-Reads me (path_of h) (request_of h) b p h.peer (peer-request_of h)
              (rw (elsewhere, guarded, other, reader) at reached))
        | inr unknown ↦ absurd (ground arith)
      ]
    ])
  ]
]
