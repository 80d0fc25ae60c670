-- ===== src/Ledger/Cap/Files.antt =====
-- ledger.py, `_write_markers` and `enforce_cap`: the files of a pause. `usd2` is how `"%.2f"` spells
-- an amount.
pub mod Reads
use pipe_os.Prelude.{
  ℕ, Bool, true, false, not, ◌&&◌, ◌||◌, Option, none, some, List, [], ◌∷◌, ◌++◌, ◌==◌,
  if◌then◌else◌, Text, text_eq, is_empty, codes,
}
use pipe_os.Ledger.Pause.{Scope, box, cluster, agent, Entry, Agents, Doc, no_pause, find}
use pipe_os.Ledger.Cap.{World, Month, scope_hit, agent_hit, agents_hit, once, kept}

abbrev pub is_set : Option Entry → Bool
is_set none = false
is_set (some e) = true

-- The names of one dict are all in the other; with distinct keys, twice this is equal key sets.
unfoldable pub names_in : Agents → Agents → Bool
unfolding find
names_in [] b = true
names_in ((n, e) ∷ a) b = is_set (find n b) && names_in a b

abbrev bool_eq : Bool → Bool → Bool
bool_eq true b = b
bool_eq false b = not b

-- `_strip(doc) == _strip(before)`
unfoldable pub same_shape : Doc → Doc → Bool
unfolding names_in
same_shape a b =
    bool_eq (is_set a.box_entry) (is_set b.box_entry)
    && bool_eq (is_set a.cluster_entry) (is_set b.cluster_entry)
    && names_in a.agents b.agents
    && names_in b.agents a.agents

scope_eq : Scope → Scope → Bool
scope_eq box box = true
scope_eq cluster cluster = true
scope_eq agent agent = true
scope_eq _ _ = false

entry_eq : Entry → Entry → Bool
unfolding scope_eq
entry_eq a b =
    scope_eq a.scope b.scope
    && text_eq a.name b.name
    && a.cap == b.cap
    && a.spent == b.spent
    && text_eq a.since b.since
    && text_eq a.text b.text

option_entry_eq : Option Entry → Option Entry → Bool
unfolding entry_eq
option_entry_eq none none = true
option_entry_eq (some a) (some b) = entry_eq a b
option_entry_eq _ _ = false

entries_in : Agents → Agents → Bool
unfolding option_entry_eq find
entries_in [] b = true
entries_in ((n, e) ∷ a) b = option_entry_eq (find n b) (some e) && entries_in a b

-- `doc == before`
unfoldable pub doc_eq : Doc → Doc → Bool
unfolding option_entry_eq entries_in
doc_eq a b =
    option_entry_eq a.box_entry b.box_entry
    && option_entry_eq a.cluster_entry b.cluster_entry
    && entries_in a.agents b.agents
    && entries_in b.agents a.agents

abbrev pub either : Option Entry → Option Entry → Option Entry
either (some e) other = some e
either none other = other

abbrev any_pause : Doc → Bool
any_pause doc = is_set doc.box_entry || is_set doc.cluster_entry || not (is_empty doc.agents)

-- `_replace(self.paused_json_path(), …)` or its removal
unfoldable pub write_json : Doc → Doc → Bool → World → World
write_json doc before changed w =
    if any_pause doc
    then if changed || not (doc_eq doc before) then record w { paused_json = some doc } else w
    else record w { paused_json = none }

-- The plain marker, and whether it changed; an absent marker reads as an empty text.
unfoldable pub write_plain : Option Entry → World → Bool × World
write_plain none w = elim w.paused [
  | none ↦ (false, w)
  | some t ↦ (true, record w { paused = none })
]
write_plain (some e) w = elim w.paused [
  | none ↦ if is_empty e.text then (false, w) else (true, record w { paused = some e.text })
  | some t ↦ if text_eq t e.text then (false, w) else (true, record w { paused = some e.text })
]

-- `read_paused` of the file
abbrev pub before_of : World → Doc
before_of w = elim w.paused_json [ none ↦ no_pause | some d ↦ d ]

module _ (usd2 : ℕ → Text) where
  -- `_write_markers`: whether what is paused changed, and the world after it
  unfoldable pub write_markers : Doc → Doc → World → Bool × World
  write_markers doc before w =
      let changed = not (same_shape doc before) in
      let doc' = kept usd2 doc before in
      let w1 = write_json doc' before changed w in
      let (plain, w2) = write_plain (either doc'.cluster_entry doc'.box_entry) w1 in
      (changed || plain, w2)

  -- What the three thresholds say, and the messages that they send.
  unfoldable pub thresholds : Month → Doc → World → Doc × World
  thresholds now before w =
      let (box_hit, warned, w1) = scope_hit usd2 box now.cap now.spent now before.box_entry w in
      let (cluster_hit, warned', w2) =
        scope_hit usd2 cluster now.cluster_cap now.cluster_spent now before.cluster_entry w1 in
      let (agents, w3) = agents_hit usd2 now before.agents now.agent_caps ([], w2) in
      (record { box_entry = box_hit; cluster_entry = cluster_hit; agents = agents }, w3)

  unfoldable pub enforce_cap : Month → World → Bool × World
  unfolding thresholds scope_hit agents_hit agent_hit once write_markers same_shape kept write_json
      write_plain
  enforce_cap now w =
      let before = before_of w in
      let (doc, w1) = thresholds now before w in write_markers doc before w1
