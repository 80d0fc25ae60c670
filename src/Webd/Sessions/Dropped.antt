-- ===== src/Webd/Sessions/Dropped.antt =====
-- webd.py, the sessions: what is left of them after `drop_user_sessions`, and who a token stands for.
use pipe_os.Prelude.{
  ℕ, ◌≡◌, refl, sym, ap, ◌∙◌, inl, inr, ◌≤◌, ◌+◌, true, false, not, Option, none, some, List, [],
  ◌∷◌, if◌then◌else◌, Text, text_eq, text_eq_iff, arith, Bool-cases, Option-cases,
}
use pipe_os.Prelude.Ascii.{text_in}
use pipe_os.Prelude.Dict.{Dict, get, set, get-set, get-del}
use pipe_os.Webd.{Role, fields, SessionFile, Session}
use pipe_os.Webd.Sessions.{
  session_idle_s, matches_token, new_session, session_of, used, valid_session, is_of, drop_if_of,
  drop_listed, listdir, drop_user_sessions,
}

-- What `valid_session` of a token returns, and what it leaves under that token.
unfoldable pub seen : Text → ℕ → Option SessionFile → Option Session × Option SessionFile
seen tok now o = if not (matches_token tok) then (none, o) else elim o [
  | none ↦ (none, none)
  | some f ↦ elim (used now f) [
    | none ↦ (none, none)
    | some f' ↦ (some (session_of f.body), some f')
  ]
]

-- The answer of `valid_session` depends on the token's own file.
pub valid_session_lem :
    (tok : Text) (now : ℕ) (d : Dict SessionFile)
    → (valid_session tok now d).0 ≡ (seen tok now (get tok d)).0
unfolding valid_session seen
valid_session_lem tok now d = ground arith

-- It touches no other file.
pub get-valid_session :
    (j tok : Text) (now : ℕ) (d : Dict SessionFile)
    → get j (valid_session tok now d).1
      ≡ (if text_eq tok j then (seen tok now (get tok d)).1 else get j d)
unfolding valid_session seen
get-valid_session j tok now d = elim (Bool-cases (matches_token tok)) [
  | inr bad ↦ ground (arith, text_eq_iff tok j)
  | inl good ↦ elim (Option-cases (get tok d)) [
    | inl gone ↦ ground (arith, text_eq_iff tok j)
    | inr (f, there) ↦ elim (Option-cases (used now f)) [
      | inl idle ↦ ground (arith, get-del j tok d)
      | inr (f', live) ↦ ground (arith, get-set j tok f' d)
    ]
  ]
]

-- What a round of the loop leaves under its token.
kept : Text → ℕ → Text → Option SessionFile → Option SessionFile
kept name now tok o = let (s, o') = seen tok now o in if is_of name s then none else o'

get-drop_if_of :
    (j name : Text) (now : ℕ) (tok : Text) (d : Dict SessionFile)
    → get j (drop_if_of name now tok d)
      ≡ (if text_eq tok j then kept name now tok (get tok d) else get j d)
unfolding drop_if_of kept
get-drop_if_of j name now tok d = ground (
  arith,
  valid_session_lem tok now d,
  get-valid_session j tok now d,
  get-del j tok (valid_session tok now d).1,
)

-- A file under `tok` that no later request is answered from for `name`.
abbrev Clean : Text → Text → Option SessionFile → Type 0
Clean name tok o = (later : ℕ) → is_of name (seen tok later o).0 ≡ false

kept-Clean :
    (name : Text) (now : ℕ) (tok : Text) (o : Option SessionFile)
    → Clean name tok (kept name now tok o)
unfolding kept seen used
kept-Clean name now tok none later = ground arith
kept-Clean name now tok (some f) later = ground arith

drop_listed-Clean :
    (name : Text) (now : ℕ) (tok : Text) (toks : List Text) (d : Dict SessionFile)
    → Clean name tok (get tok d)
    → Clean name tok (get tok (drop_listed name now toks d))
unfolding drop_listed
drop_listed-Clean name now tok [] d clean = clean
drop_listed-Clean name now tok (t ∷ toks) d clean =
    drop_listed-Clean name now tok toks (drop_if_of name now t d)
      (elim (Bool-cases (text_eq t tok)) [
        | inl same ↦ λ later.
            rw (get-drop_if_of tok name now t d, same)
              (rw ((text_eq_iff t tok).0 same) (kept-Clean name now tok (get tok d) later))
        | inr other ↦ λ later. rw (get-drop_if_of tok name now t d, other) (clean later)
      ])

drop_listed-listed :
    (name : Text) (now : ℕ) (tok : Text) (toks : List Text) (d : Dict SessionFile)
    → text_in tok toks ≡ true
    → Clean name tok (get tok (drop_listed name now toks d))
unfolding drop_listed text_in
drop_listed-listed name now tok [] d there = absurd (ground arith)
drop_listed-listed name now tok (t ∷ toks) d there = elim (Bool-cases (text_eq t tok)) [
  | inl same ↦ drop_listed-Clean name now tok toks (drop_if_of name now t d) (λ later.
      rw (get-drop_if_of tok name now t d, same)
        (rw ((text_eq_iff t tok).0 same) (kept-Clean name now tok (get tok d) later)))
  | inr other ↦ drop_listed-listed name now tok toks (drop_if_of name now t d) (ground arith)
]

get-listdir :
    (tok : Text) (d : Dict SessionFile) → text_in tok (listdir d) ≡ false → get tok d ≡ none
unfolding text_in listdir get
get-listdir tok [] h = refl
get-listdir tok ((t, f) ∷ d) h = ground (arith, get-listdir tok d)

seen_none : (name tok : Text) → Clean name tok none
unfolding seen
seen_none name tok later = ground arith

fresh_seen :
    (tok : Text) (f : SessionFile) (later : ℕ)
    → matches_token tok ≡ true
    → later ≤ f.mtime + session_idle_s
    → (seen tok later (some f)).0 ≡ some (session_of f.body)
unfolding seen used
fresh_seen tok f later good soon = ground arith

-- After `drop_user_sessions name` no token is taken for `name`, then or at any later time.
pub valid_session-drop_user_sessions :
    (name tok : Text) (now later : ℕ) (d : Dict SessionFile)
    → is_of name (valid_session tok later (drop_user_sessions name now d)).0 ≡ false
unfolding drop_user_sessions
valid_session-drop_user_sessions name tok now later d =
    rw (valid_session_lem tok later (drop_listed name now (listdir d) d))
      (elim (Bool-cases (text_in tok (listdir d))) [
        | inl there ↦ drop_listed-listed name now tok (listdir d) d there later
        | inr gone ↦
            drop_listed-Clean name now tok (listdir d) d
              (rw (get-listdir tok d gone) (seen_none name tok)) later
      ])

-- What a request with a session of another user is answered from stays as it is.
kept-seen :
    (name : Text) (now : ℕ) (tok : Text) (o : Option SessionFile)
    → is_of name (seen tok now o).0 ≡ false
    → (seen tok now (kept name now tok o)).0 ≡ (seen tok now o).0
unfolding kept seen used
kept-seen name now tok none other = ground arith
kept-seen name now tok (some f) other = ground arith

drop_if_of_other :
    (name tok : Text) (now : ℕ) (t : Text) (d : Dict SessionFile)
    → is_of name (valid_session tok now d).0 ≡ false
    → (valid_session tok now (drop_if_of name now t d)).0 ≡ (valid_session tok now d).0
drop_if_of_other name tok now t d other =
    rw (valid_session_lem tok now (drop_if_of name now t d), valid_session_lem tok now d)
      (rw (get-drop_if_of tok name now t d) (elim (Bool-cases (text_eq t tok)) [
        | inr unlike ↦ rw unlike
        | inl same ↦
            rw (same, (text_eq_iff t tok).0 same)
              (kept-seen name now tok (get tok d)
                (ap (is_of name) (sym (valid_session_lem tok now d)) ∙ other))
      ]))

drop_listed_other :
    (name tok : Text) (now : ℕ) (toks : List Text) (d : Dict SessionFile)
    → is_of name (valid_session tok now d).0 ≡ false
    → (valid_session tok now (drop_listed name now toks d)).0 ≡ (valid_session tok now d).0
unfolding drop_listed
drop_listed_other name tok now [] d other = refl
drop_listed_other name tok now (t ∷ toks) d other =
    let once = drop_if_of_other name tok now t d other in
    drop_listed_other name tok now toks (drop_if_of name now t d) (ap (is_of name) once ∙ other)
    ∙ once

-- `drop_user_sessions name` leaves every session that is not one of `name`.
pub valid_session-drop_user_sessions_other :
    (name tok : Text) (now : ℕ) (d : Dict SessionFile)
    → is_of name (valid_session tok now d).0 ≡ false
    → (valid_session tok now (drop_user_sessions name now d)).0 ≡ (valid_session tok now d).0
unfolding drop_user_sessions
valid_session-drop_user_sessions_other name tok now d other =
    drop_listed_other name tok now (listdir d) d other

-- A token of `new_session` is answered with its user and its role within the idle time, and the other
-- tokens as before.
pub valid_session-new_session :
    (tok j user : Text) (role : Role) (now later : ℕ) (d : Dict SessionFile)
    → matches_token tok ≡ true
    → later ≤ now + session_idle_s
    → (valid_session j later (new_session tok user role now d)).0 ≡ (
        if text_eq tok j then some (session_of (fields user role)) else (valid_session j later d).0)
unfolding new_session
valid_session-new_session tok j user role now later d good soon =
    let f : SessionFile = record { mtime = now; body = fields user role } in
    rw (valid_session_lem j later (set tok f d), valid_session_lem j later d, get-set j tok f d)
      (elim (Bool-cases (text_eq tok j)) [
        | inr unlike ↦ rw unlike
        | inl same ↦ rw (same, sym ((text_eq_iff tok j).0 same)) (fresh_seen tok f later good soon)
      ])
