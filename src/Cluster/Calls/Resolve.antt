-- ===== src/Cluster/Calls/Resolve.antt =====
-- cluster.py, `resolve` and `adopt`: the address of a Machine, and an unclaimed Machine made a member.
use pipe_os.Prelude.{
  ℕ, ◌+◌, Bool, not, ◌&&◌, ◌||◌, Option, none, some, [], ◌∷◌, ◌==◌, if◌then◌else◌, Text, text_eq,
  is_empty, codes,
}
use pipe_os.Prelude.Fallible.{ok, err, ◌>>=◌}
use pipe_os.Prelude.Dict.{Dict, get, set}
use pipe_os.Prelude.Ascii.{lower}
use pipe_os.Cron.Field.{is_number, decimal}
use pipe_os.Cluster.{
  Doc, unknown_machine, no_machine, already_claimed, refused_claim, Outcome, Files, Box, read, norm,
}
use pipe_os.Cluster.Calls.{Send, Joined, Report, naming_failed, add, or_initial}

-- What the responder says of a Machine; a missing text is empty.
pub record Known : Type 0 where
  pub name : Text
  pub host : Text
  pub ip : Text
  pub tls_port : Option ℕ

-- `partition(":")`: in front of the first colon, and behind it
unfoldable pub partition : Text → Text × Text
partition [] = ([], [])
partition (c ∷ s) = let (host, p) = partition s in if c == b':' then ([], s) else (c ∷ host, p)

unfoldable pub dots : Text → ℕ
dots [] = 0
dots (c ∷ s) = let n = dots s in if c == b'.' then n + 1 else n

unfoldable pub no_dots : Text → Text
no_dots [] = []
no_dots (c ∷ s) = let rest = no_dots s in if c == b'.' then rest else c ∷ rest

-- `int(r.get("tls_port") or port)`
abbrev port_or : Option ℕ → ℕ → ℕ
port_or none port = port
port_or (some p) port = if p == 0 then port else p

-- The loop over one of the two dicts.
unfoldable pub address_in : Text → ℕ → Dict Known → Option (Text × ℕ)
address_in t port [] = none
address_in t port ((key, r) ∷ rows) =
    let rest = address_in t port rows in
    if not (is_empty t)
      && (text_eq t key || text_eq t (lower r.name) || text_eq t (norm r.host))
      && not (is_empty r.ip)
    then some (r.ip, port_or r.tls_port port)
    else rest

-- `resolve`, with the ports that were learned, the responder's cache and its roster; `tls` is the
-- port of TLS, and `here` that of this Machine's own listener. Digits are those of ASCII.
module _ (tls here : ℕ) (ports : Dict (Text × ℕ)) (peers roster : Dict Known) where
  unfoldable pub resolve_at : Text → ℕ → Outcome (Text × ℕ)
  unfolding dots no_dots address_in
  resolve_at target port =
      if dots target == 3 && is_number (no_dots target)
      then ok (target, port)
      else elim (address_in (norm target) port peers) [
        | some a ↦ ok a
        | none ↦ elim (address_in (norm target) port roster) [
          | some a ↦ ok a
          | none ↦ err unknown_machine
        ]
      ]

  unfoldable pub resolve : Text → Outcome (Text × ℕ)
  unfolding get partition resolve_at
  resolve target = elim (get target ports) [
    | some a ↦ ok a
    | none ↦
        (let (host, p) = partition target in
          if text_eq target (codes "local")
          then ok (codes "127.0.0.1", here)
          else if is_number p
          then resolve_at host (decimal p)
          else resolve_at target tls)
  ]

-- What an unclaimed Machine says of itself, and to a claim.
pub record State : Type 0 where
  pub claimed : Bool

module _ (fingerprint : Text → Text) (is_authority : Text → Bool) (digest : Text → Text)
    (b : Box) where
  -- `adopt`: `state` and `claim` ask the target; `rename` asks the new member, and an error of that
  -- becomes its line of the report. `none` is what is no object or has another status than 200.
  unfoldable pub adopt :
      (state : Text → Outcome (Option State))
      → (claim : Text → Text → Outcome (Option Text)) → (rename : Text → Text → Outcome Unit)
      → (fetch_ca : Text → Outcome Text) → (ask : Text → Doc → Outcome (ℕ × Option Joined)) → Send
      → (target password name fresh : Text) → (now : ℕ) → Files
      → Outcome ((Text × Text × Dict Report) × Files)
  adopt state claim rename fetch_ca ask send target password name fresh now w = do
    found ← read w.stored
    (d, w1) ← or_initial fingerprint is_authority digest b found fresh now w
    s ← state target
    elim s [
      | none ↦ err no_machine
      | some st ↦ if st.claimed then err already_claimed else (do
        phrase ← claim target password
        elim phrase [
          | none ↦ err refused_claim
          | some p ↦ (do
            ((mid, report), w2) ←
                add fingerprint is_authority digest b fetch_ca ask send target name fresh now w1
            let renamed : Outcome Unit = if is_empty name then ok tt else rename mid name
            ok (
              (mid, p, elim renamed [ ok u ↦ report | err e ↦ set mid (naming_failed e) report ]),
              w2,
            ))
        ])
    ]
