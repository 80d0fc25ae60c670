-- ===== src/Ledger/Ingest/Tail.antt =====
-- ledger.py, `ingest`: a transcript that grows between two passes, or that stays as it is.
use pipe_os.Prelude.{
  ℕ, ◌≡◌, refl, sym, ap, ◌∙◌, inl, inr, ◌≤◌, ◌+◌, ◌-◌, List, [], ◌∷◌, ◌++◌, ◌==◌, length, drop,
  Text, arith, Bool-cases, some, length-append, ==_iff, append-nil,
}
use mathlib.Core.Path.{subst}
use pipe_os.Ledger.Cursor.{seen_ring, last_of, Entry}
use pipe_os.Ledger.Ingest.{
  cut, consumed, Reading, Transcript, read_lines, start_of, read_from, read_transcript,
}
use pipe_os.Ledger.Ingest.Torn.{cut-tail, length-cut, length-drop, drop-length, whole}
use pipe_os.Ledger.Ingest.Lines.{
  resumed, cut-append, drop-consumed, drop-add, drop-append_le, read_lines-append,
}

module _ (r : Reading) (path : Text) (ino : ℕ) where
  start_of-le : (s : Text) (e : Entry) → start_of r (whole path ino s) e ≤ length s
  unfolding start_of
  start_of-le s e = ground arith

  -- At the end of a transcript there is nothing to read.
  read_from-nil :
      (f : Transcript) (off : ℕ) (seen : List Text)
      → read_from r f off seen []
        ≡ (record { ino = some f.ino; off = off; seen = last_of seen_ring seen }, [])
  unfolding read_from cut consumed read_lines
  read_from-nil f off seen =
      ap (λ n. (record { ino = some f.ino; off = n; seen = last_of seen_ring seen }, []))
        (add_zero off)
    where
      add_zero : (n : ℕ) → n + 0 ≡ n
      add_zero n = omega arith

  -- The test whether there is more to read only saves the opening.
  pub read_transcript-whole :
      (s : Text) (e : Entry) (off : ℕ)
      → start_of r (whole path ino s) e ≡ off
      → read_transcript r (whole path ino s) e ≡ (
        some (read_from r (whole path ino s) off e.seen (drop off s)).0,
        (read_from r (whole path ino s) off e.seen (drop off s)).1,
      )
  unfolding read_transcript
  read_transcript-whole s e off start = elim (Bool-cases (length s == off)) [
    | inr more ↦ rw (start, more) refl
    | inl done ↦
        let same = (==_iff (length s) off).0 done in
        let at_end = ap (λ n. drop n s) (sym same) ∙ drop-length s in
        rw (start, done, at_end, read_from-nil (whole path ino s) off e.seen) refl
  ]

  start_of-same :
      (s : Text) (e : Entry)
      → e.ino ≡ some ino
      → e.off ≤ length s
      → start_of r (whole path ino s) e ≡ e.off
  unfolding start_of
  start_of-same s e same within = rw (same, start_of) (ground arith)

  read_from-off :
      (f : Transcript) (off : ℕ) (seen : List Text) (u : Text)
      → (read_from r f off seen u).0.off ≡ off + consumed (cut u).0
  unfolding read_from
  read_from-off f off seen u = refl

  read_from-ino :
      (f : Transcript) (off : ℕ) (seen : List Text) (u : Text)
      → (read_from r f off seen u).0.ino ≡ some f.ino
  unfolding read_from
  read_from-ino f off seen u = refl

  -- Where the next pass starts: at the torn tail.
  next_start :
      (s more : Text) (off : ℕ) (seen : List Text)
      → off ≤ length s
      → let e' = (read_from r (whole path ino s) off seen (drop off s)).0 in
        (start_of r (whole path ino (s ++ more)) e' ≡ e'.off)
        × (drop e'.off (s ++ more) ≡ (cut (drop off s)).1 ++ more)
  next_start s more off seen within =
      let u = drop off s in
      let e' = (read_from r (whole path ino s) off seen u).0 in
      let at = read_from-off (whole path ino s) off seen u in
      let size = length-cut u in
      let left = length-drop off s within in
      (
        start_of-same (s ++ more) e' (read_from-ino (whole path ino s) off seen u)
            (omega (arith, length-append s more)),
        rw at (
            drop-add off (consumed (cut u).0) (s ++ more)
            ∙ ap (drop (consumed (cut u).0)) (drop-append_le off s more within)
            ∙ drop-append_le (consumed (cut u).0) u more (omega arith)
            ∙ ap (λ w. w ++ more) (drop-consumed u)),
      )

  read_from-tail :
      (f : Transcript) (off : ℕ) (seen : List Text) (u : Text)
      → (read_from r f off seen (cut u).1).1 ≡ []
  unfolding read_from read_lines
  read_from-tail f off seen u = rw (cut-tail u) refl

  some-injective : {a b : Entry} → some a ≡ some b → a ≡ b
  some-injective h = cc

  -- The entry of a pass.
  entry-eq :
      (s : Text) (e e' : Entry)
      → (read_transcript r (whole path ino s) e).0 ≡ some e'
      → let off = start_of r (whole path ino s) e in
        (read_from r (whole path ino s) off e.seen (drop off s)).0 ≡ e'
  entry-eq s e e' first = some-injective (
      sym (ap (λ q. q.0) (read_transcript-whole s e (start_of r (whole path ino s) e) refl))
      ∙ first)

  next_pass :
      (s more : Text) (e e' : Entry) (off : ℕ)
      → off ≤ length s
      → (read_from r (whole path ino s) off e.seen (drop off s)).0 ≡ e'
      → read_transcript r (whole path ino (s ++ more)) e' ≡ (
        some
            (read_from r
              (whole path ino (s ++ more))
              e'.off
              e'.seen
              ((cut (drop off s)).1 ++ more)).0,
        (read_from r (whole path ino (s ++ more)) e'.off e'.seen ((cut (drop off s)).1 ++ more)).1,
      )
  next_pass s more e e' off within same =
      let n =
        subst
          (λ k.
            (start_of r (whole path ino (s ++ more)) k ≡ k.off)
            × (drop k.off (s ++ more) ≡ (cut (drop off s)).1 ++ more))
          same (next_start s more off e.seen within) in
      read_transcript-whole (s ++ more) e' e'.off n.0
      ∙ ap
          (λ w. (
            some (read_from r (whole path ino (s ++ more)) e'.off e'.seen w).0,
            (read_from r (whole path ino (s ++ more)) e'.off e'.seen w).1,
          ))
          n.1

  -- When a transcript is as it was, one more pass takes nothing from it, whatever its entry was before.
  pub read_transcript-again :
      (s : Text) (e e' : Entry)
      → (read_transcript r (whole path ino s) e).0 ≡ some e'
      → (read_transcript r (whole path ino s) e').1 ≡ []
  read_transcript-again s e e' first =
      let off = start_of r (whole path ino s) e in
      let pass = next_pass s [] e e' off (start_of-le s e) (entry-eq s e e' first) in
      ap (λ w. (read_transcript r (whole path ino w) e').1) (sym (append-nil s))
      ∙ ap (λ q. q.1) pass
      ∙ ap (λ w. (read_from r (whole path ino (s ++ [])) e'.off e'.seen w).1)
          (append-nil (cut (drop off s)).1)
      ∙ read_from-tail (whole path ino (s ++ [])) e'.off e'.seen (drop off s)

  last_of_few : (xs : List Text) → length xs ≤ seen_ring → last_of seen_ring xs ≡ xs
  unfolding last_of
  last_of_few xs few = let none_ : length xs - 256 ≡ 0 = omega arith in rw none_ refl

  consumed-append : (xs ys : List Text) → consumed (xs ++ ys) ≡ consumed xs + consumed ys
  unfolding consumed
  consumed-append [] ys = omega arith
  consumed-append (x ∷ xs) ys = omega (arith, consumed-append xs ys)

  -- Two readings in a row are one.
  read_from-append :
      (f : Transcript) (off : ℕ) (seen : List Text) (u more : Text)
      → length (read_lines r (cut u).0 seen).0 ≤ seen_ring
      → let e' = (read_from r f off seen u).0 in
        read_from r f off seen (u ++ more) ≡ (
          (read_from r f e'.off e'.seen ((cut u).1 ++ more)).0,
          (read_from r f off seen u).1 ++ (read_from r f e'.off e'.seen ((cut u).1 ++ more)).1,
        )
  unfolding read_from resumed
  read_from-append f off seen u more few =
      let ls = (cut u).0 in
      let ms = (cut ((cut u).1 ++ more)).0 in
      let read = read_lines r ls seen in
      ap
        (λ q. (
          record {
            ino = some f.ino;
            off = off + consumed q.0;
            seen = last_of seen_ring (read_lines r q.0 seen).0;
          },
          (read_lines r q.0 seen).1,
        ))
        (cut-append u more)
      ∙ ap
          (λ q. (
            record {
              ino = some f.ino;
              off = q;
              seen = last_of seen_ring (read_lines r (ls ++ ms) seen).0;
            },
            (read_lines r (ls ++ ms) seen).1,
          ))
          (omega (arith, consumed-append ls ms))
      ∙ ap
          (λ q. (
            record {
              ino = some f.ino;
              off = off + consumed ls + consumed ms;
              seen = last_of seen_ring q.0;
            },
            q.1,
          ))
          (read_lines-append r ls ms seen)
      ∙ ap
          (λ w. (
            record {
              ino = some f.ino;
              off = off + consumed ls + consumed ms;
              seen = last_of seen_ring (read_lines r ms w).0;
            },
            read.1 ++ (read_lines r ms w).1,
          ))
          (sym (last_of_few read.0 few))

  -- An entry starts at the same place in the transcript that has grown.
  start_of-grown :
      (s more : Text) (e : Entry)
      → e.off ≤ length s
      → start_of r (whole path ino (s ++ more)) e ≡ start_of r (whole path ino s) e
  unfolding start_of
  start_of-grown s more e within = ground (arith, length-append s more)

  -- A transcript that grows between two passes, also in the middle of a line, gives in both together
  -- what one pass over the whole would, and the same entry: from an entry that does not point past the
  -- end of the transcript of the first pass, be it new or of another inode, and while the ring has room
  -- for the ids that the first pass knows afterwards.
  pub read_transcript-append :
      (s more : Text) (e e' : Entry)
      → e.off ≤ length s
      → length (read_lines r (cut (drop (start_of r (whole path ino s) e) s)).0 e.seen).0
        ≤ seen_ring
      → (read_transcript r (whole path ino s) e).0 ≡ some e'
      → read_transcript r (whole path ino (s ++ more)) e ≡ (
        (read_transcript r (whole path ino (s ++ more)) e').0,
        (read_transcript r (whole path ino s) e).1
            ++ (read_transcript r (whole path ino (s ++ more)) e').1,
      )
  unfolding read_from
  read_transcript-append s more e e' within few first =
      let f = whole path ino s in
      let g = whole path ino (s ++ more) in
      let off = start_of r f e in
      let inside = start_of-le s e in
      let u = drop off s in
      let once = read_transcript-whole s e off refl in
      let entry = entry-eq s e e' first in
      let later = next_pass s more e e' off inside entry in
      read_transcript-whole (s ++ more) e off (start_of-grown s more e within)
      ∙ ap (λ w. (some (read_from r g off e.seen w).0, (read_from r g off e.seen w).1))
          (drop-append_le off s more inside)
      ∙ ap (λ q. (some q.0, q.1)) (read_from-append g off e.seen u more few)
      ∙ ap
          (λ k. (
            some (read_from r g k.off k.seen ((cut u).1 ++ more)).0,
            (read_from r f off e.seen u).1 ++ (read_from r g k.off k.seen ((cut u).1 ++ more)).1,
          ))
          entry
      ∙ ap (λ q. (q.0, (read_from r f off e.seen u).1 ++ q.1)) (sym later)
      ∙ ap (λ ls. ((read_transcript r g e').0, ls ++ (read_transcript r g e').1))
          (sym (ap (λ q. q.1) once))
