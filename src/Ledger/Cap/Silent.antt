-- ===== src/Ledger/Cap/Silent.antt =====
-- ledger.py: a second `enforce_cap` on the same figures sends no message.
use pipe_os.Prelude.{ℕ, ◌≡◌, true, List, [], ◌∷◌, ◌++◌, if◌then◌else◌, Text, codes}
use pipe_os.Ledger.Money.{reached}
use pipe_os.Ledger.Pause.{box, cluster}
use pipe_os.Ledger.Cap.{agent_paused, World, Month, marker, exists, once}
use pipe_os.Ledger.Cap.Messages.{after_scope}

abbrev agent_marker : Text → Month → Text
agent_marker name now = marker (codes "agent-" ++ (name ++ codes "-paused")) now.month

-- The world behind one agent's cap, and behind all of them.
abbrev after_agent : Month → Text → ℕ → World → World
after_agent now name acap w =
    if reached acap (now.agent_spent name)
    then once (agent_marker name now) (agent_paused name acap (now.agent_spent name)) w
    else w

after_agents : Month → List (Text × ℕ) → World → World
after_agents now [] w = w
after_agents now ((name, acap) ∷ caps) w = after_agents now caps (after_agent now name acap w)

AllSettled : Month → List (Text × ℕ) → World → Type 0
AllSettled now [] w = Unit
AllSettled now ((name, acap) ∷ caps) w =
    (reached acap (now.agent_spent name) ≡ true → exists (agent_marker name now) w.markers ≡ true)
    × AllSettled now caps w

-- The world behind all thresholds.
abbrev after_all : Month → World → World
after_all now w = after_agents now now.agent_caps (
    after_scope cluster now.cluster_cap now.cluster_spent now
      (after_scope box now.cap now.spent now w))
