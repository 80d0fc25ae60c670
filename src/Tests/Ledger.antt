-- ===== src/Tests/Ledger.antt =====
-- ledger.py's caps on concrete months.
use pipe_os.Prelude.{ℕ, ◌≡◌, refl, false, true, not, [], ◌∷◌, none, some, Text, codes, is_empty}
use pipe_os.Ledger.Money.{show, reached}
use pipe_os.Ledger.Cap.{Month, World}
use pipe_os.Ledger.Cap.Files.{enforce_cap}
use pipe_os.Ledger.Cap.Gate.{capped, enforce_cap-gate}
use pipe_os.Ledger.Cap.Files.Reads.{verdict}

-- USD 12.50 of the box's cap of USD 50, and USD 3.01 of the cap of USD 3 on `digest`.
abbrev november : Month
november = record {
  month = codes "2025-11";
  day = codes "2025-11-26";
  cap = 50;
  spent = 125000;
  cluster_cap = 0;
  cluster_spent = 0;
  agent_caps = (codes "digest", 3) ∷ [];
  agent_spent = λ name. 30100;
}

-- A month that begins with the marker of the last one.
abbrev left_over : World
left_over = record {
  markers = [];
  outbox = [];
  paused = some (codes "monthly cap USD 50 reached");
  paused_json = none;
}

-- An amount, spelled in ten-thousandths.
abbrev cents : ℕ → Text
cents = show

enforce_cap-gate_example :
    is_empty (verdict (enforce_cap cents november left_over).1 (codes "digest"))
    ≡ not (capped november (codes "digest"))
enforce_cap-gate_example = enforce_cap-gate cents november left_over (codes "digest")

only_digest : (capped november (codes "digest") ≡ true) × (capped november (codes "backup") ≡ false)
unfolding reached
only_digest = (refl, refl)
