-- ===== src/Cluster/Calls/Token.antt =====
-- cluster.py, the use of the token of a join.
use pipe_os.Prelude.{ℕ, ◌≡◌, refl, false, Text}
use pipe_os.Cluster.Calls.{TokenFile, no_token, broken_token, live, take_join_token}

-- After any candidate has been tried on a file, no candidate is accepted any more, at any time.
pub take_join_token-take_join_token :
    (c c' : Text) (now now' : ℕ) (file : TokenFile)
    → (take_join_token c' now' (take_join_token c now file).1).0 ≡ false
unfolding take_join_token
take_join_token-take_join_token c c' now now' no_token = refl
take_join_token-take_join_token c c' now now' broken_token = refl
take_join_token-take_join_token c c' now now' (live t exp) = refl
