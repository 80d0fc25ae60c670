-- ===== src/Mdns/Expiry.antt =====
-- Which peers `prune` of mdnsd.py keeps.
use pipe_os.Prelude.{ℕ, ◌-◌, ◌*◌, ◌≤◌, ◌≡◌, some, [], ◌∷◌, Text, arith}
use pipe_os.Prelude.Dict.{get}
use pipe_os.Mdns.{Peer, Peers, prune}

-- Seen at most `expire` ago.
abbrev pub Fresh : ℕ → ℕ → Peer → Type 0
Fresh expire now e = now - e.last_seen * 1000 ≤ expire

-- A peer that is left was seen at most `expire` before `now`.
pub prune-Fresh :
    (expire now : ℕ) (id : Text) (e : Peer) (peers : Peers)
    → get id (prune expire now peers) ≡ some e
    → Fresh expire now e
unfolding get prune
prune-Fresh expire now id e [] h = absurd (ground arith)
prune-Fresh expire now id e ((j, a) ∷ peers) h =
    ground (arith, h, prune-Fresh expire now id e peers)

-- A peer that was seen at most `expire` before `now` is left as it is.
pub prune-get :
    (expire now : ℕ) (id : Text) (e : Peer) (peers : Peers)
    → get id peers ≡ some e
    → Fresh expire now e
    → get id (prune expire now peers) ≡ some e
unfolding get prune
prune-get expire now id e [] h f = absurd (ground arith)
prune-get expire now id e ((j, a) ∷ peers) h f =
    ground (arith, h, f, prune-get expire now id e peers)
