-- ===== src/Ledger/Ingest/Lines.antt =====
-- ledger.py, `ingest`: the lines of a transcript, when it is read in parts.
use pipe_os.Prelude.{
  ℕ, zero, suc, ◌≡◌, refl, sym, ap, inl, inr, ◌≤◌, ◌+◌, false, List, [], ◌∷◌, ◌++◌, ◌==◌, length,
  drop, Text, arith, Bool-cases, Option-cases,
}
use pipe_os.Ledger.Ingest.{cut, grown, consumed, Reading, read_lines, message_of}

-- The lines that end in what follows a text, with its torn tail in front.
unfoldable pub resumed : List Text × Text → Text → List Text × Text
resumed (ls, tail) t = (ls ++ (cut (tail ++ t)).0, (cut (tail ++ t)).1)

grown-resumed :
    (c : ℕ) (p q : List Text × Text) (t : Text)
    → (c == b'\n') ≡ false
    → q ≡ resumed p t
    → grown c q.0 q.1 ≡ resumed (grown c p.0 p.1) t
unfolding resumed cut
grown-resumed c ([], tail) q t other e = rw (ap (λ r. grown c r.0 r.1) e) (rw other refl)
grown-resumed c (l ∷ ls, tail) q t other e = ap (λ r. grown c r.0 r.1) e

-- Text that is appended completes the torn tail.
pub cut-append : (s t : Text) → cut (s ++ t) ≡ resumed (cut s) t
unfolding cut resumed
cut-append [] t = refl
cut-append (c ∷ s) t = elim (Bool-cases (c == b'\n')) [
  | inl newline ↦ rw newline (ap (λ r. ([] ∷ r.0, r.1)) (cut-append s t))
  | inr other ↦ rw other (grown-resumed c (cut s) (cut (s ++ t)) t other (cut-append s t))
]

drop-consumed-grown :
    (c : ℕ) (s : Text) (p : List Text × Text)
    → drop (consumed p.0) s ≡ p.1
    → drop (consumed (grown c p.0 p.1).0) (c ∷ s) ≡ (grown c p.0 p.1).1
unfolding consumed
drop-consumed-grown c s ([], tail) h = ap (◌∷◌ c) h
drop-consumed-grown c s (l ∷ ls, tail) h =
    let one_more : suc (length l) + 1 + consumed ls ≡ suc (length l + 1 + consumed ls) =
      omega arith in
    rw one_more h

-- What is left after the lines that were consumed is the torn tail.
pub drop-consumed : (s : Text) → drop (consumed (cut s).0) s ≡ (cut s).1
unfolding cut consumed
drop-consumed [] = refl
drop-consumed (c ∷ s) = elim (Bool-cases (c == b'\n')) [
  | inl newline ↦ rw newline (rw (one_line (consumed (cut s).0)) (drop-consumed s))
  | inr other ↦ rw other (drop-consumed-grown c s (cut s) (drop-consumed s))
]
  where
    one_line : (n : ℕ) → 0 + 1 + n ≡ suc n
    one_line n = omega arith

drop_nil : (n : ℕ) → drop {A = ℕ} n [] ≡ []
drop_nil zero = refl
drop_nil (suc n) = refl

pub drop-add : (m n : ℕ) (s : Text) → drop (m + n) s ≡ drop n (drop m s)
drop-add zero n s = rw (zero_add n)
  where
    zero_add : (k : ℕ) → 0 + k ≡ k
    zero_add k = omega arith
drop-add (suc m) n [] = rw (suc_out m n) (sym (drop_nil n))
  where
    suc_out : (a b : ℕ) → suc a + b ≡ suc (a + b)
    suc_out a b = omega arith
drop-add (suc m) n (c ∷ s) = rw (suc_out m n) (drop-add m n s)
  where
    suc_out : (a b : ℕ) → suc a + b ≡ suc (a + b)
    suc_out a b = omega arith

pub drop-append_le : (n : ℕ) (s t : Text) → n ≤ length s → drop n (s ++ t) ≡ drop n s ++ t
drop-append_le zero s t h = refl
drop-append_le (suc n) [] t h = absurd (omega arith)
drop-append_le (suc n) (c ∷ s) t h = drop-append_le n s t (omega arith)

module _ (r : Reading) where
  pub read_lines-append :
      (xs ys seen : List Text)
      → read_lines r (xs ++ ys) seen ≡ (
        (read_lines r ys (read_lines r xs seen).0).0,
        (read_lines r xs seen).1 ++ (read_lines r ys (read_lines r xs seen).0).1,
      )
  unfolding read_lines
  read_lines-append [] ys seen = refl
  read_lines-append (x ∷ xs) ys seen = elim (Option-cases (message_of r seen x)) [
    | inl passed ↦ rw (passed, read_lines) (read_lines-append xs ys seen)
    | inr (l, taken) ↦
        rw (taken, read_lines)
          (ap (λ q. (q.0, l ∷ q.1)) (read_lines-append xs ys (seen ++ (l.id ∷ []))))
  ]
