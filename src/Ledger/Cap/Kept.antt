-- ===== src/Ledger/Cap/Kept.antt =====
-- `_write_markers` of ledger.py keeps which entries are set, and writes what the readers read.
use pipe_os.Prelude.{
  ℕ, ◌≡◌, refl, Bool, not, ◌&&◌, ◌||◌, Option, none, some, [], ◌∷◌, Text, is_empty, arith,
}
use pipe_os.Ledger.Pause.{Entry, Agents, Doc, find, entry_text, paused_for}
use pipe_os.Ledger.Cap.{keep, keep_entry, keep_agents, kept}
use pipe_os.Ledger.Cap.Files.{is_set}
use pipe_os.Ledger.Cap.Hits.{Spoken, SpokenIfSet, AllSpoken, SpokenDoc, rendered-Spoken}

module _ (usd2 : ℕ → Text) where
  keep_entry-Spoken : (e : Entry) (o : Option Entry) → Spoken e → Spoken (keep_entry usd2 e o)
  unfolding keep_entry
  keep_entry-Spoken e none h = h
  keep_entry-Spoken e (some b) h = ground (arith, rendered-Spoken usd2 b)

  pub keep-set : (o before : Option Entry) → is_set (keep usd2 o before) ≡ is_set o
  unfolding keep
  keep-set none before = refl
  keep-set (some e) before = refl

  keep-Spoken : (o before : Option Entry) → SpokenIfSet o → SpokenIfSet (keep usd2 o before)
  unfolding keep
  keep-Spoken none before h = tt
  keep-Spoken (some e) before h = keep_entry-Spoken e before h

  pub find-keep_agents :
      (name : Text) (before agents : Agents)
      → is_set (find name (keep_agents usd2 before agents)) ≡ is_set (find name agents)
  unfolding keep_agents find
  find-keep_agents name before [] = refl
  find-keep_agents name before ((n, e) ∷ agents) =
      ground (arith, find-keep_agents name before agents)

  keep_agents-Spoken :
      (before agents : Agents) → AllSpoken agents → AllSpoken (keep_agents usd2 before agents)
  unfolding keep_agents
  keep_agents-Spoken before [] h = tt
  keep_agents-Spoken before ((n, e) ∷ agents) h =
      (keep_entry-Spoken e (find n before) h.0, keep_agents-Spoken before agents h.1)

  pub kept-Spoken : (doc before : Doc) → SpokenDoc doc → SpokenDoc (kept usd2 doc before)
  unfolding kept
  kept-Spoken doc before h = record {
    in_box = keep-Spoken doc.box_entry before.box_entry h.in_box;
    in_cluster = keep-Spoken doc.cluster_entry before.cluster_entry h.in_cluster;
    in_agents = keep_agents-Spoken before.agents doc.agents h.in_agents;
  }

pub find-Spoken :
    (name : Text) (agents : Agents)
    → AllSpoken agents
    → is_empty (entry_text (find name agents)) ≡ not (is_set (find name agents))
unfolding find
find-Spoken name [] h = refl
find-Spoken name ((n, e) ∷ agents) h = ground (arith, find-Spoken name agents h.1, h.0)

-- What `paused_for` looks for, as a test.
abbrev pub blocks : Doc → Text → Bool
blocks doc name =
    is_set doc.cluster_entry
    || is_set doc.box_entry
    || (not (is_empty name) && is_set (find name doc.agents))

pub paused_for-Spoken :
    (doc : Doc) (name : Text)
    → SpokenDoc doc
    → is_empty (paused_for doc name) ≡ not (blocks doc name)
unfolding paused_for
paused_for-Spoken doc name h =
    ground (arith, find-Spoken name doc.agents h.in_agents, h.in_box, h.in_cluster)
