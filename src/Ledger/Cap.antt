-- ===== src/Ledger/Cap.antt =====
-- ledger.py, `_scope_hit`, the loop over the agents' caps in `enforce_cap`, and the kept entries of
-- `_write_markers`: the caps against the month's spend.
-- A direct message stands for the values that its sentence is made of. `usd2` is how `"%.2f"`
-- spells an amount.
pub mod Files
pub mod Hits
pub mod Kept
pub mod Gate
mod Messages
pub mod Silent
use pipe_os.Prelude.{
  ℕ, Bool, true, false, not, ◌&&◌, ◌||◌, Option, none, some, List, [], ◌∷◌, ◌++◌, ◌==◌,
  if◌then◌else◌, Text, text_eq, is_empty, codes,
}
use pipe_os.Ledger.Money.{reached, warns}
use pipe_os.Ledger.Pause.{
  Scope, box, cluster, agent, Entry, Agents, Doc, no_pause, find, entry, rendered,
}

pub data Message : Type 0 where
  scope_paused scope_warned : Scope → ℕ → ℕ → Message
  agent_paused : Text → ℕ → ℕ → Message

-- The files under the ledger's directory that the caps use, and the messages that were sent.
pub record World : Type 0 where
  pub markers : List Text
  pub outbox : List Message
  pub paused : Option Text
  pub paused_json : Option Doc

-- The month's figures, and the day and month of the clock.
pub record Month : Type 0 where
  pub month : Text
  pub day : Text
  pub cap : ℕ
  pub spent : ℕ
  pub cluster_cap : ℕ
  pub cluster_spent : ℕ
  pub agent_caps : List (Text × ℕ)
  pub agent_spent : Text → ℕ

-- `_marker(kind, now)`, the name of the file
abbrev pub marker : Text → Text → Text
marker kind month = kind ++ b'-' ∷ month

-- `os.path.exists` of a marker file
unfoldable pub exists : Text → List Text → Bool
exists name [] = false
exists name (m ∷ markers) = text_eq m name || exists name markers

-- `open(m, "w").close()`
unfoldable pub touch : Text → World → World
touch name w = record w { markers = name ∷ w.markers }

-- `self.dm(text)`, whose result nothing reads
unfoldable pub dm : Message → World → World
dm message w = record w { outbox = w.outbox ++ message ∷ [] }

abbrev pub prefixed : Scope → Text → Text
prefixed box kind = kind
prefixed cluster kind = codes "cluster-" ++ kind
prefixed agent kind = codes "agent-" ++ kind

-- One message for a marker that is not there yet.
unfoldable pub once : Text → Message → World → World
unfolding touch dm exists
once name message w = if exists name w.markers then w else touch name (dm message w)

-- The branch at 80%: the marker is set at 100% too, without a message.
unfoldable pub warn_once : Text → Bool → Message → World → Bool × World
unfolding touch dm exists
warn_once name full message w =
    if exists name w.markers
    then (false, w)
    else (true, touch name (if full then w else dm message w))

abbrev pub since_of : Option Entry → Text
since_of none = []
since_of (some e) = e.since

module _ (usd2 : ℕ → Text) where
  -- `_scope_hit`: the entry, whether the warning was set now, and the world after it
  unfoldable pub scope_hit :
      Scope → ℕ → ℕ → Month → Option Entry → World → Option Entry × Bool × World
  unfolding once warn_once
  scope_hit scope cap spent now before w =
      if cap == 0
      then (none, false, w)
      else (let full = reached cap spent in
          let w1 =
            if full
            then once (marker (prefixed scope (codes "paused")) now.month)
                (scope_paused scope cap spent) w
            else w in
          let hit =
            if full then some (entry usd2 scope [] cap spent now.day (since_of before)) else none in
          let (warned, w2) =
            warn_once (marker (prefixed scope (codes "warned")) now.month) full
              (scope_warned scope cap spent) w1 in
          if warns cap spent then (hit, warned, w2) else (hit, false, w1))

  -- The body of the loop over `agent_caps`.
  unfoldable pub agent_hit : Month → Agents → Text → ℕ → Agents × World → Agents × World
  agent_hit now before name acap (agents, w) =
      let aspent = now.agent_spent name in
      if reached acap aspent
      then (
        agents
            ++ (name, entry usd2 agent name acap aspent now.day (since_of (find name before))) ∷ [],
        once (marker (codes "agent-" ++ (name ++ codes "-paused")) now.month)
            (agent_paused name acap aspent) w,
      )
      else (agents, w)

  unfoldable pub agents_hit : Month → Agents → List (Text × ℕ) → Agents × World → Agents × World
  agents_hit now before [] s = s
  agents_hit now before ((name, acap) ∷ caps) s =
      agents_hit now before caps (agent_hit now before name acap s)

  -- The same pause as before: its spend and its day, with today's sentence.
  unfoldable pub keep_entry : Entry → Option Entry → Entry
  keep_entry e none = e
  keep_entry e (some b) = if b.cap == e.cap then rendered usd2 b else e

  unfoldable pub keep : Option Entry → Option Entry → Option Entry
  unfolding keep_entry
  keep none before = none
  keep (some e) before = some (keep_entry e before)

  unfoldable pub keep_agents : Agents → Agents → Agents
  keep_agents before [] = []
  keep_agents before ((name, e) ∷ agents) =
      (name, keep_entry e (find name before)) ∷ keep_agents before agents

  unfoldable pub kept : Doc → Doc → Doc
  unfolding keep keep_entry keep_agents
  kept doc before = record {
    box_entry = keep doc.box_entry before.box_entry;
    cluster_entry = keep doc.cluster_entry before.cluster_entry;
    agents = keep_agents before.agents doc.agents;
  }
