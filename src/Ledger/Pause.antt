-- ===== src/Ledger/Pause.antt =====
-- ledger.py, the pause document and its readers: `pause_text`, `_entry`, `_rendered`, `_strip`,
-- `paused_for`, `why_paused`. `usd2` is how `"%.2f"` spells an amount: Python's floats have no
-- model here, and nothing below looks into that spelling.
use pipe_os.Prelude.{
  ℕ, Option, none, some, List, [], ◌∷◌, ◌++◌, if◌then◌else◌, Text, text_eq, is_empty, codes,
}
use pipe_os.Ledger.Money.{show}

pub data Scope : Type 0 where
  box cluster agent : Scope

pub record Entry : Type 0 where
  pub scope : Scope
  pub name : Text
  pub cap : ℕ
  pub spent : ℕ
  pub since : Text
  pub text : Text

-- A dict from names of agents to their entries.
abbrev pub Agents : Type 0
Agents = List (Text × Entry)

pub record Doc : Type 0 where
  pub box_entry : Option Entry
  pub cluster_entry : Option Entry
  pub agents : Agents

-- What `read_paused` returns for a file that is absent or unreadable.
abbrev pub no_pause : Doc
no_pause = record { box_entry = none; cluster_entry = none; agents = [] }

unfoldable pub find : Text → Agents → Option Entry
find name [] = none
find name ((n, e) ∷ agents) = if text_eq n name then some e else find name agents

abbrev pub entry_text : Option Entry → Text
entry_text none = []
entry_text (some e) = e.text

-- `paused_for(doc, name)`: an empty text means go.
unfoldable pub paused_for : Doc → Text → Text
unfolding find
paused_for doc name = elim doc.cluster_entry [
  | some e ↦ e.text
  | none ↦ elim doc.box_entry [
    | some e ↦ e.text
    | none ↦ if is_empty name then [] else entry_text (find name doc.agents)
  ]
]

-- `why_paused`: the marker's text, stripped, with an empty text for a marker that is not there.
unfoldable pub why_paused : Text → Doc → Text → Text
unfolding paused_for
why_paused marker doc name = if is_empty marker then paused_for doc name else marker

module _ (usd2 : ℕ → Text) where
  unfoldable pub pause_text : Scope → Text → ℕ → ℕ → Text → Text
  pause_text agent name cap spent day =
      codes "agent "
      ++ (name
          ++ (codes ": monthly cap USD "
              ++ (show cap
                  ++ (codes " reached "
                      ++ (day
                          ++ (codes " (spent "
                              ++ (usd2 spent
                                  ++ (codes "; the per-agent cap on "
                                      ++ (name
                                          ++ (codes "); "
                                              ++ (name
                                                  ++ (codes
                                                        " resumes on the 1st or when its cap is raised (pipeos schedule set "
                                                      ++ (name
                                                          ++ codes " --cap N|none)")))))))))))))
  pause_text cluster name cap spent day =
      codes "cluster monthly cap USD "
      ++ (show cap
          ++ (codes " reached "
              ++ (day
                  ++ (codes " (spent "
                      ++ (usd2 spent
                          ++ codes
                              " across the cluster; CLUSTER_CAP_USD); scheduled jobs on every member resume on the 1st or when the cluster cap is raised under Usage (pipeos usage cap --cluster N|none)")))))
  pause_text box name cap spent day =
      codes "monthly cap USD "
      ++ (show cap
          ++ (codes " reached "
              ++ (day
                  ++ (codes " (spent "
                      ++ (usd2 spent
                          ++ codes
                              "; this Machine's cap); scheduled jobs resume on the 1st or when the cap is raised under Usage (pipeos usage cap N|none)")))))

  -- `since or day`
  abbrev pub since_or : Text → Text → Text
  since_or since day = if is_empty since then day else since

  -- `_entry`
  unfoldable pub entry : Scope → Text → ℕ → ℕ → Text → Text → Entry
  unfolding pause_text
  entry scope name cap spent day since = record {
    scope = scope;
    name = name;
    cap = cap;
    spent = spent;
    since = since_or since day;
    text = pause_text scope name cap spent (since_or since day);
  }

  -- `_rendered`: a kept entry with today's sentence
  unfoldable pub rendered : Entry → Entry
  unfolding pause_text
  rendered e = record e { text = pause_text e.scope e.name e.cap e.spent e.since }
