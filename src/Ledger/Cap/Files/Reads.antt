-- ===== src/Ledger/Cap/Files/Reads.antt =====
-- What ledger.py's readers find in the files that `_write_markers` leaves.
use mathlib.Core.Path.{subst}
use pipe_os.Prelude.{
  ◌≡◌, inl, inr, refl, sym, Bool, true, not, ◌&&◌, ◌||◌, Option, none, some, [], ◌∷◌, Bool-cases,
  Text, text_eq, text_eq_iff, is_empty, arith,
}
use pipe_os.Ledger.Pause.{Entry, Agents, Doc, find, entry_text, paused_for, why_paused}
use pipe_os.Ledger.Cap.{World}
use pipe_os.Ledger.Cap.Files.{
  is_set, entry_eq, option_entry_eq, entries_in, doc_eq, either, any_pause, write_json, write_plain,
  before_of,
}
use pipe_os.Ledger.Cap.Hits.{SpokenIfSet}

-- `paused_text()`
abbrev pub marker_text : World → Text
marker_text w = elim w.paused [ none ↦ [] | some t ↦ t ]

empty_text : (t : Text) → is_empty t ≡ true → t ≡ []
empty_text [] h = refl
empty_text (c ∷ t) h = ground arith

pub write_plain-text :
    (o : Option Entry) (w : World) → marker_text (write_plain o w).1 ≡ entry_text o
unfolding write_plain
write_plain-text none w = ground arith
write_plain-text (some e) w = by_file w.paused refl
  where
    by_file : (o : Option Text) → w.paused ≡ o → marker_text (write_plain (some e) w).1 ≡ e.text
    by_file none absent = ground (arith, empty_text e.text)
    by_file (some t) there = ground (arith, (text_eq_iff t e.text).0)

pub write_plain-json :
    (o : Option Entry) (w : World) → (write_plain o w).1.paused_json ≡ w.paused_json
unfolding write_plain
write_plain-json none w = ground arith
write_plain-json (some e) w = ground arith

-- Equal entries set or not, and with a text or not, alike.
option_entry_eq-alike :
    (a b : Option Entry)
    → option_entry_eq a b ≡ true
    → (is_set a ≡ is_set b) × (is_empty (entry_text a) ≡ is_empty (entry_text b))
unfolding option_entry_eq entry_eq
option_entry_eq-alike none none h = (refl, refl)
option_entry_eq-alike none (some b) h = ground arith
option_entry_eq-alike (some a) none h = ground arith
option_entry_eq-alike (some a) (some b) h = (refl, ground (arith, (text_eq_iff a.text b.text).0))

entries_in-find :
    (name : Text) (a b : Agents)
    → entries_in a b ≡ true
    → is_set (find name a) ≡ true
    → option_entry_eq (find name b) (find name a) ≡ true
unfolding entries_in find
entries_in-find name [] b h k = absurd (ground arith)
entries_in-find name ((n, e) ∷ a) b h k = elim (Bool-cases (text_eq n name)) [
  | inl same ↦ rw same (
      subst (λ t. option_entry_eq (find t b) (some e) ≡ true) ((text_eq_iff n name).0 same)
        (ground (arith, h)))
  | inr other ↦ rw other (entries_in-find name a b (ground arith) (rw other at k))
]

-- Documents that `doc_eq` accepts have the same agents, and entries that speak alike.
find-alike :
    (name : Text) (a b : Agents)
    → entries_in a b ≡ true
    → entries_in b a ≡ true
    → (is_set (find name a) ≡ is_set (find name b))
      × (is_empty (entry_text (find name a)) ≡ is_empty (entry_text (find name b)))
find-alike name a b h k = elim (Bool-cases (is_set (find name a))) [
  | inl there ↦
      let alike =
        option_entry_eq-alike (find name b) (find name a) (entries_in-find name a b h there) in
      (sym alike.0, sym alike.1)
  | inr absent ↦ elim (Bool-cases (is_set (find name b))) [
    | inl there ↦
        option_entry_eq-alike (find name a) (find name b) (entries_in-find name b a k there)
    | inr absent' ↦ (ground arith, ground arith)
  ]
]

paused_for-doc_eq :
    (a b : Doc) (name : Text)
    → doc_eq a b ≡ true
    → is_empty (paused_for a name) ≡ is_empty (paused_for b name)
unfolding doc_eq paused_for
paused_for-doc_eq a b name h =
    let boxes = option_entry_eq-alike a.box_entry b.box_entry (ground arith) in
    let clusters = option_entry_eq-alike a.cluster_entry b.cluster_entry (ground arith) in
    let agents = find-alike name a.agents b.agents (ground arith) (ground arith) in
    ground (arith, boxes, clusters, agents)

pub write_json-reads :
    (doc : Doc) (changed : Bool) (w : World) (name : Text)
    → is_empty (paused_for (before_of (write_json doc (before_of w) changed w)) name)
      ≡ is_empty (paused_for doc name)
unfolding write_json
write_json-reads doc changed w name = elim (Bool-cases (any_pause doc)) [
  | inr quiet ↦ rw quiet (unfold paused_for in ground arith)
  | inl paused ↦ rw paused (ground (arith, paused_for-doc_eq doc (before_of w) name))
]

pub is_empty-why_paused :
    (m : Text) (doc : Doc) (name : Text)
    → is_empty (why_paused m doc name) ≡ (is_empty m && is_empty (paused_for doc name))
unfolding why_paused
is_empty-why_paused m doc name = ground arith

-- What `why_paused` says of a world.
abbrev pub verdict : World → Text → Text
verdict w name = why_paused (marker_text w) (before_of w) name

pub either-Spoken :
    (a b : Option Entry)
    → SpokenIfSet a
    → SpokenIfSet b
    → is_empty (entry_text (either a b)) ≡ not (is_set a || is_set b)
either-Spoken none none h k = refl
either-Spoken none (some b) h k = k
either-Spoken (some a) b h k = h
