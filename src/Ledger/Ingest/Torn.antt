-- ===== src/Ledger/Ingest/Torn.antt =====
-- ledger.py, `ingest`: the torn tail of a transcript, and the lengths of what is cut off.
use pipe_os.Prelude.{
  ℕ, zero, suc, ◌≡◌, refl, inl, inr, ◌≤◌, ◌+◌, false, List, [], ◌∷◌, ◌==◌, length, drop, Text,
  arith, Bool-cases, some,
}
use pipe_os.Ledger.Ingest.{cut, grown, consumed, Transcript}

cut-tail_grown :
    (c : ℕ) (p : List Text × Text)
    → (c == b'\n') ≡ false
    → cut p.1 ≡ ([], p.1)
    → cut (grown c p.0 p.1).1 ≡ ([], (grown c p.0 p.1).1)
unfolding cut
cut-tail_grown c ([], tail) other h = rw (other, h) refl
cut-tail_grown c (l ∷ ls, tail) other h = h

-- The torn tail has no line.
pub cut-tail : (s : Text) → cut (cut s).1 ≡ ([], (cut s).1)
unfolding cut
cut-tail [] = refl
cut-tail (c ∷ s) = elim (Bool-cases (c == b'\n')) [
  | inl newline ↦ rw newline (cut-tail s)
  | inr other ↦ rw other (cut-tail_grown c (cut s) other (cut-tail s))
]

length-grown :
    (c : ℕ) (p : List Text × Text)
    → consumed (grown c p.0 p.1).0 + length (grown c p.0 p.1).1 ≡ suc (consumed p.0 + length p.1)
unfolding consumed
length-grown c ([], tail) = omega arith
length-grown c (l ∷ ls, tail) = omega arith

pub length-cut : (s : Text) → consumed (cut s).0 + length (cut s).1 ≡ length s
unfolding cut consumed
length-cut [] = omega arith
length-cut (c ∷ s) = elim (Bool-cases (c == b'\n')) [
  | inl newline ↦ rw newline (omega (arith, length-cut s))
  | inr other ↦ rw other (omega (arith, length-grown c (cut s), length-cut s))
]

pub length-drop : (n : ℕ) (s : Text) → n ≤ length s → n + length (drop n s) ≡ length s
length-drop zero s h = omega arith
length-drop (suc n) [] h = absurd (omega arith)
length-drop (suc n) (c ∷ s) h = omega (arith, length-drop n s)

pub drop-length : (s : Text) → drop (length s) s ≡ []
drop-length [] = refl
drop-length (c ∷ s) = drop-length s

-- A transcript that is read as `stat` found it.
abbrev pub whole : Text → ℕ → Text → Transcript
whole path ino s = record { path = path; ino = ino; size = length s; bytes = some s }
