-- ===== src/Ledger/Cap/Hits.antt =====
-- What the thresholds of `enforce_cap` in ledger.py put into the pause document.
use pipe_os.Prelude.{
  ℕ, ◌≡◌, inl, inr, refl, Bool, false, not, ◌&&◌, ◌||◌, Option, none, some, List, [], ◌∷◌, ◌++◌,
  ◌==◌, Bool-cases, All, All-append, Text, text_eq, is_empty, arith,
}
use pipe_os.Ledger.Money.{reached}
use pipe_os.Ledger.Pause.{
  Scope, box, cluster, agent, Entry, Agents, Doc, find, entry, rendered, pause_text,
}
use pipe_os.Ledger.Cap.{World, Month, scope_hit, agent_hit, agents_hit, since_of}
use pipe_os.Ledger.Cap.Files.{is_set}

-- An entry says something.
abbrev pub Spoken : Entry → Type 0
Spoken e = is_empty e.text ≡ false

abbrev pub SpokenIfSet : Option Entry → Type 0
SpokenIfSet none = Unit
SpokenIfSet (some e) = Spoken e

abbrev pub AllSpoken : Agents → Type 0
AllSpoken = All (λ a. Spoken a.1)

pub record SpokenDoc (doc : Doc) : Type 0 where
  pub in_box : SpokenIfSet doc.box_entry
  pub in_cluster : SpokenIfSet doc.cluster_entry
  pub in_agents : AllSpoken doc.agents

-- The caps of agents that `name` has and that are reached.
abbrev pub over : Month → Text → List (Text × ℕ) → Bool
over now name [] = false
over now name ((n, acap) ∷ caps) =
    (text_eq n name && reached acap (now.agent_spent n)) || over now name caps

module _ (usd2 : ℕ → Text) where
  entry-Spoken :
      (s : Scope) (name : Text) (cap spent : ℕ) (day since : Text)
      → Spoken (entry usd2 s name cap spent day since)
  unfolding entry
  entry-Spoken box name cap spent day since = refl
  entry-Spoken cluster name cap spent day since = refl
  entry-Spoken agent name cap spent day since = refl

  pause_text-Spoken :
      (s : Scope) (name : Text) (cap spent : ℕ) (day : Text)
      → is_empty (pause_text usd2 s name cap spent day) ≡ false
  unfolding pause_text
  pause_text-Spoken box name cap spent day = refl
  pause_text-Spoken cluster name cap spent day = refl
  pause_text-Spoken agent name cap spent day = refl

  pub rendered-Spoken : (e : Entry) → Spoken (rendered usd2 e)
  unfolding rendered
  rendered-Spoken e = pause_text-Spoken e.scope e.name e.cap e.spent e.since

  -- A scope is paused exactly when it has a cap and the cap is reached.
  pub scope_hit-set :
      (s : Scope) (cap spent : ℕ) (now : Month) (before : Option Entry) (w : World)
      → is_set (scope_hit usd2 s cap spent now before w).0 ≡ (not (cap == 0) && reached cap spent)
  unfolding scope_hit
  scope_hit-set s cap spent now before w = ground arith

  pub scope_hit-Spoken :
      (s : Scope) (cap spent : ℕ) (now : Month) (before : Option Entry) (w : World)
      → SpokenIfSet (scope_hit usd2 s cap spent now before w).0
  unfolding scope_hit
  scope_hit-Spoken s cap spent now before w =
      ground (arith, entry-Spoken s [] cap spent now.day (since_of before))

  find-append :
      (name : Text) (a b : Agents)
      → is_set (find name (a ++ b)) ≡ (is_set (find name a) || is_set (find name b))
  unfolding find
  find-append name [] b = refl
  find-append name ((n, e) ∷ a) b = ground (arith, find-append name a b)

  agent_hit-set :
      (now : Month) (before : Agents) (n name : Text) (acap : ℕ) (agents : Agents) (w : World)
      → is_set (find name (agent_hit usd2 now before n acap (agents, w)).0)
        ≡ (is_set (find name agents) || (text_eq n name && reached acap (now.agent_spent n)))
  unfolding agent_hit find
  agent_hit-set now before n name acap agents w =
      elim (Bool-cases (reached acap (now.agent_spent n))) [
        | inl full ↦ rw full (
            ground (
              arith,
              find-append name agents (
                  (
                    n,
                    entry usd2 agent n acap (now.agent_spent n) now.day (since_of (find n before)),
                  )
                  ∷ []),
            ))
        | inr under ↦ rw under (ground arith)
      ]

  agent_hit-Spoken :
      (now : Month) (before : Agents) (n : Text) (acap : ℕ) (agents : Agents) (w : World)
      → AllSpoken agents
      → AllSpoken (agent_hit usd2 now before n acap (agents, w)).0
  unfolding agent_hit
  agent_hit-Spoken now before n acap agents w h =
      elim (Bool-cases (reached acap (now.agent_spent n))) [
        | inl full ↦ rw full (
            All-append (λ a. Spoken a.1) agents _ h
              (
                entry-Spoken agent n acap (now.agent_spent n) now.day (since_of (find n before)),
                tt,
              ))
        | inr under ↦ rw under h
      ]

  pub agents_hit-set :
      (now : Month) (before : Agents) (name : Text) (caps : List (Text × ℕ)) (agents : Agents)
      (w : World)
      → is_set (find name (agents_hit usd2 now before caps (agents, w)).0)
        ≡ (is_set (find name agents) || over now name caps)
  unfolding agents_hit
  agents_hit-set now before name [] agents w = ground arith
  agents_hit-set now before name ((n, acap) ∷ caps) agents w =
      let (agents', w') = agent_hit usd2 now before n acap (agents, w) in
      ground (
        arith,
        agent_hit-set now before n name acap agents w,
        agents_hit-set now before name caps agents' w',
      )

  pub agents_hit-Spoken :
      (now : Month) (before : Agents) (caps : List (Text × ℕ)) (agents : Agents) (w : World)
      → AllSpoken agents
      → AllSpoken (agents_hit usd2 now before caps (agents, w)).0
  unfolding agents_hit
  agents_hit-Spoken now before [] agents w h = h
  agents_hit-Spoken now before ((n, acap) ∷ caps) agents w h =
      let s = agent_hit usd2 now before n acap (agents, w) in
      agents_hit-Spoken now before caps s.0 s.1 (agent_hit-Spoken now before n acap agents w h)
