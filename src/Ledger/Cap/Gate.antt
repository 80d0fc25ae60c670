-- ===== src/Ledger/Cap/Gate.antt =====
-- After `enforce_cap` of ledger.py, `why_paused` stops a job exactly when a cap that covers the job
-- is reached.
use mathlib.Core.Path.{ap₂}
use pipe_os.Prelude.{
  ℕ, ◌≡◌, refl, sym, ap, ◌∙◌, Bool, not, ◌&&◌, ◌||◌, Option, none, some, List, [], ◌∷◌, ◌==◌, Text,
  is_empty, arith,
}
use pipe_os.Ledger.Money.{reached}
use pipe_os.Ledger.Pause.{Scope, box, cluster, Entry, Agents, Doc, no_pause, find, paused_for}
use pipe_os.Ledger.Cap.{World, Month, once, scope_hit, agent_hit, agents_hit, kept}
use pipe_os.Ledger.Cap.Files.{
  is_set, same_shape, either, write_json, write_plain, before_of, write_markers, thresholds,
  enforce_cap,
}
use pipe_os.Ledger.Cap.Hits.{
  SpokenDoc, scope_hit-set, scope_hit-Spoken, agents_hit-set, agents_hit-Spoken, over,
}
use pipe_os.Ledger.Cap.Kept.{blocks, keep-set, find-keep_agents, kept-Spoken, paused_for-Spoken}
use pipe_os.Ledger.Cap.Files.Reads.{
  marker_text, verdict, write_plain-text, write_plain-json, write_json-reads, is_empty-why_paused,
  either-Spoken,
}

-- The job `name` is covered by a cap that is reached: the cluster's, the box's or its own.
abbrev pub capped : Month → Text → Bool
capped now name =
    (not (now.cluster_cap == 0) && reached now.cluster_cap now.cluster_spent)
    || (not (now.cap == 0) && reached now.cap now.spent)
    || (not (is_empty name) && over now name now.agent_caps)

before-json : (v w : World) → v.paused_json ≡ w.paused_json → before_of v ≡ before_of w
before-json v w e = ap (λ j. elim j [ none ↦ no_pause | some d ↦ d ]) e

kept-blocks :
    (usd2 : ℕ → Text) (doc bd : Doc) (name : Text)
    → (not (is_set (kept usd2 doc bd).cluster_entry || is_set (kept usd2 doc bd).box_entry)
        && not (blocks (kept usd2 doc bd) name))
      ≡ not (blocks doc name)
unfolding kept
kept-blocks usd2 doc bd name = ground (
  arith,
  keep-set usd2 doc.box_entry bd.box_entry,
  keep-set usd2 doc.cluster_entry bd.cluster_entry,
  find-keep_agents usd2 name bd.agents doc.agents,
)

module _ (usd2 : ℕ → Text) where
  write_markers-verdict :
      (doc : Doc) (w : World) (name : Text)
      → SpokenDoc doc
      → is_empty (verdict (write_markers usd2 doc (before_of w) w).1 name) ≡ not (blocks doc name)
  unfolding write_markers
  write_markers-verdict doc w name h =
      let bd = before_of w in
      let d = kept usd2 doc bd in
      let changed = not (same_shape doc bd) in
      let w1 = write_json d bd changed w in
      let g = either d.cluster_entry d.box_entry in
      let spoken = kept-Spoken usd2 doc bd h in
      let marker_eq : is_empty (marker_text (write_plain g w1).1)
          ≡ not (is_set d.cluster_entry || is_set d.box_entry) =
        ap (λ (t : Text). is_empty t) (write_plain-text g w1)
        ∙ either-Spoken d.cluster_entry d.box_entry spoken.in_cluster spoken.in_box in
      let doc_of : is_empty (paused_for (before_of (write_plain g w1).1) name)
          ≡ not (blocks d name) =
        ap (λ b. is_empty (paused_for b name))
          (before-json (write_plain g w1).1 w1 (write_plain-json g w1))
        ∙ write_json-reads d changed w name
        ∙ paused_for-Spoken d name spoken in
      is_empty-why_paused (marker_text (write_plain g w1).1) (before_of (write_plain g w1).1) name
      ∙ ap₂ (λ a b. a && b) marker_eq doc_of
      ∙ kept-blocks usd2 doc bd name

  scope_hit-json :
      (s : Scope) (cap spent : ℕ) (now : Month) (before : Option Entry) (w : World)
      → (scope_hit usd2 s cap spent now before w).2.paused_json ≡ w.paused_json
  unfolding scope_hit
  scope_hit-json s cap spent now before w = ground arith

  agent_hit-json :
      (now : Month) (before : Agents) (n : Text) (acap : ℕ) (agents : Agents) (w : World)
      → (agent_hit usd2 now before n acap (agents, w)).1.paused_json ≡ w.paused_json
  unfolding agent_hit once
  agent_hit-json now before n acap agents w = ground arith

  agents_hit-json :
      (now : Month) (before : Agents) (caps : List (Text × ℕ)) (agents : Agents) (w : World)
      → (agents_hit usd2 now before caps (agents, w)).1.paused_json ≡ w.paused_json
  unfolding agents_hit
  agents_hit-json now before [] agents w = refl
  agents_hit-json now before ((n, acap) ∷ caps) agents w =
      let s = agent_hit usd2 now before n acap (agents, w) in
      agents_hit-json now before caps s.0 s.1 ∙ agent_hit-json now before n acap agents w

  thresholds-json :
      (now : Month) (before : Doc) (w : World)
      → (thresholds usd2 now before w).1.paused_json ≡ w.paused_json
  unfolding thresholds
  thresholds-json now before w =
      let w1 = (scope_hit usd2 box now.cap now.spent now before.box_entry w).2 in
      let w2 =
        (scope_hit usd2 cluster now.cluster_cap now.cluster_spent now before.cluster_entry w1).2 in
      agents_hit-json now before.agents now.agent_caps [] w2
      ∙ scope_hit-json cluster now.cluster_cap now.cluster_spent now before.cluster_entry w1
      ∙ scope_hit-json box now.cap now.spent now before.box_entry w

  thresholds-Spoken :
      (now : Month) (before : Doc) (w : World) → SpokenDoc (thresholds usd2 now before w).0
  unfolding thresholds
  thresholds-Spoken now before w = record {
    in_box = scope_hit-Spoken usd2 box now.cap now.spent now before.box_entry w;
    in_cluster =
        scope_hit-Spoken usd2 cluster now.cluster_cap now.cluster_spent now before.cluster_entry _;
    in_agents = agents_hit-Spoken usd2 now before.agents now.agent_caps [] _ tt;
  }

  thresholds-blocks :
      (now : Month) (before : Doc) (w : World) (name : Text)
      → blocks (thresholds usd2 now before w).0 name ≡ capped now name
  unfolding thresholds find
  thresholds-blocks now before w name =
      let w1 = (scope_hit usd2 box now.cap now.spent now before.box_entry w).2 in
      let w2 =
        (scope_hit usd2 cluster now.cluster_cap now.cluster_spent now before.cluster_entry w1).2 in
      ground (
        arith,
        scope_hit-set usd2 box now.cap now.spent now before.box_entry w,
        scope_hit-set usd2 cluster now.cluster_cap now.cluster_spent now before.cluster_entry w1,
        agents_hit-set usd2 now before.agents name now.agent_caps [] w2,
      )

  -- After `enforce_cap`, from whatever files it starts, `why_paused` lets the job `name` run exactly
  -- when neither the cluster's cap nor the box's nor one of the job's own is set and reached.
  pub enforce_cap-gate :
      (now : Month) (w : World) (name : Text)
      → is_empty (verdict (enforce_cap usd2 now w).1 name) ≡ not (capped now name)
  unfolding enforce_cap
  enforce_cap-gate now w name =
      let bd = before_of w in
      let after = (thresholds usd2 now bd w).1 in
      let doc = (thresholds usd2 now bd w).0 in
      let same : bd ≡ before_of after = sym (before-json after w (thresholds-json now bd w)) in
      ap (λ b. is_empty (verdict (write_markers usd2 doc b after).1 name)) same
      ∙ write_markers-verdict doc after name (thresholds-Spoken now bd w)
      ∙ ap (λ (b : Bool). not b) (thresholds-blocks now bd w name)
