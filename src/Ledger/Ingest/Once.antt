-- ===== src/Ledger/Ingest/Once.antt =====
-- ledger.py, `ingest`: a message is counted once, however often its transcript is read.
use pipe_os.Prelude.{
  ℕ, ◌≡◌, refl, sym, ◌∙◌, inl, inr, false, ◌||◌, List, [], ◌∷◌, ◌++◌, ◌==◌, drop, Text, text_eq,
  arith, Bool-cases, some, Option-cases, All,
}
use pipe_os.Prelude.Ascii.{text_in}
use pipe_os.Ledger.Cursor.{Entry}
use pipe_os.Ledger.Rows.{Line}
use pipe_os.Ledger.Ingest.{
  cut, Reading, Transcript, read_lines, message_of, start_of, read_from, read_transcript,
}

-- None of the messages has an id of the list.
abbrev pub Fresh : List Text → List Line → Type 0
Fresh seen = All (λ l. text_in l.id seen ≡ false)

-- No two messages have the same id.
abbrev pub Distinct : List Line → Type 0
Distinct [] = Unit
Distinct (l ∷ ls) = All (λ k. text_eq l.id k.id ≡ false) ls × Distinct ls

text_in-append :
    (x : Text) (xs ys : List Text) → text_in x (xs ++ ys) ≡ (text_in x xs || text_in x ys)
unfolding text_in
text_in-append x [] ys = refl
text_in-append x (y ∷ xs) ys = ground (arith, text_in-append x xs ys)

Fresh-earlier :
    (seen : List Text) (x : Text) (ls : List Line)
    → Fresh (seen ++ (x ∷ [])) ls
    → Fresh seen ls × All (λ k. text_eq x k.id ≡ false) ls
unfolding text_in
Fresh-earlier seen x [] h = (tt, tt)
Fresh-earlier seen x (l ∷ ls) h =
    let rest = Fresh-earlier seen x ls h.1 in
    let split_ = sym (text_in-append l.id seen (x ∷ [])) ∙ h.0 in
    ((ground arith, rest.0), (ground arith, rest.1))

module _ (r : Reading) where
  message_of-fresh :
      (seen : List Text) (raw : Text) (l : Line)
      → message_of r seen raw ≡ some l
      → text_in l.id seen ≡ false
  unfolding message_of
  message_of-fresh seen raw l taken = ground arith

  -- The messages of one reading have ids that were not seen, each another one.
  pub read_lines-Fresh :
      (raws seen : List Text)
      → Fresh seen (read_lines r raws seen).1 × Distinct (read_lines r raws seen).1
  unfolding read_lines
  read_lines-Fresh [] seen = (tt, tt)
  read_lines-Fresh (raw ∷ raws) seen = elim (Option-cases (message_of r seen raw)) [
    | inl passed ↦ rw (passed, read_lines) (read_lines-Fresh raws seen)
    | inr (l, taken) ↦
        let ih = read_lines-Fresh raws (seen ++ (l.id ∷ [])) in
        let e = Fresh-earlier seen l.id (read_lines r raws (seen ++ (l.id ∷ []))).1 ih.0 in
        rw (taken, read_lines) ((message_of-fresh seen raw l taken, e.0), (e.1, ih.1))
  ]

  read_from-Fresh :
      (f : Transcript) (off : ℕ) (seen : List Text) (s : Text)
      → Fresh seen (read_from r f off seen s).1 × Distinct (read_from r f off seen s).1
  unfolding read_from
  read_from-Fresh f off seen s = read_lines-Fresh (cut s).0 seen

  -- A message that `ingest` takes from a transcript has an id that the entry's ring does not hold, and
  -- another one than the other messages of that pass, even where the transcript was rewritten or has
  -- shrunk and is read from its start.
  pub read_transcript-Fresh :
      (f : Transcript) (e : Entry)
      → Fresh e.seen (read_transcript r f e).1 × Distinct (read_transcript r f e).1
  unfolding read_transcript
  read_transcript-Fresh f e = elim (Bool-cases (f.size == start_of r f e)) [
    | inl done ↦ rw done (tt, tt)
    | inr more ↦ rw more (elim (Option-cases f.bytes) [
      | inl shut ↦ rw (shut, read_transcript) (tt, tt)
      | inr (s, read) ↦
          rw (read, read_transcript)
            (read_from-Fresh f (start_of r f e) e.seen (drop (start_of r f e) s))
    ])
  ]
