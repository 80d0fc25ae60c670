-- ===== src/Ledger/Rates/Longest.antt =====
-- ledger.py, `rate_for`: which key of the table a model falls under.
use pipe_os.Prelude.{
  ℕ, ◌≡◌, ◌⊎◌, inl, inr, ◌≤◌, Bool, true, false, ◌&&◌, Option, none, some, [], ◌∷◌, leb, length,
  Text, is_empty, arith, Bool-cases, All,
}
use pipe_os.Prelude.Dict.{Dict, get}
use pipe_os.Prelude.Ascii.{lower, starts_with}
use pipe_os.Ledger.Rates.{undated, better, best_prefix, longer, rate_of, rate_for}

module _ {R : Type 0} where
  -- The table has this entry.
  abbrev pub Has : Text × R → Dict R → Type 0
  Has e [] = ⊥
  Has e (x ∷ d) = (x ≡ e) ⊎ Has e d

  -- Each key of the table that the text starts with is no longer than `b`.
  abbrev pub NoLonger : Text → Text → Dict R → Type 0
  NoLonger base b = All (λ x. starts_with x.0 base ≡ true → length x.0 ≤ length b)

  abbrev is_at_least : Option (Text × R) → ℕ → Bool
  is_at_least none n = false
  is_at_least (some (b, q)) n = leb n (length b)

  better-grows :
      (base : Text) (best : Option (Text × R)) (x : Text × R) (n : ℕ)
      → is_at_least best n ≡ true
      → is_at_least (better base best x) n ≡ true
  unfolding better
  better-grows base none (k, r) n h = absurd (ground arith)
  better-grows base (some (b, q)) (k, r) n h = ground arith

  best_prefix-grows :
      (base : Text) (best : Option (Text × R)) (d : Dict R) (n : ℕ)
      → is_at_least best n ≡ true
      → is_at_least (best_prefix base best d) n ≡ true
  unfolding best_prefix
  best_prefix-grows base best [] n h = h
  best_prefix-grows base best (x ∷ d) n h =
      best_prefix-grows base (better base best x) d n (better-grows base best x n h)

  better-at_least :
      (base : Text) (best : Option (Text × R)) (x : Text × R)
      → starts_with x.0 base ≡ true
      → is_at_least (better base best x) (length x.0) ≡ true
  unfolding better
  better-at_least base none (k, r) h = ground arith
  better-at_least base (some (b, q)) (k, r) h = ground arith

  best_prefix-at_least :
      (base : Text) (best : Option (Text × R)) (d : Dict R)
      → All
          (λ x.
            starts_with x.0 base ≡ true → is_at_least (best_prefix base best d) (length x.0) ≡ true)
          d
  unfolding best_prefix
  best_prefix-at_least base best [] = tt
  best_prefix-at_least base best (x ∷ d) = (
    λ h. best_prefix-grows base (better base best x) d (length x.0) (better-at_least base best x h),
    best_prefix-at_least base (better base best x) d,
  )

  better-eq :
      (base : Text) (best : Option (Text × R)) (x : Text × R) (e : Text × R)
      → better base best x ≡ some e
      → (best ≡ some e) ⊎ ((x ≡ e) × (starts_with e.0 base ≡ true))
  unfolding better
  better-eq base best (k, r) (b, q) h = elim (Bool-cases (starts_with k base && longer k best)) [
    | inl taken ↦ inr (ground arith)
    | inr kept ↦ inl (ground arith)
  ]

  -- The best key is one that was best before, or one of the table that the text starts with.
  best_prefix-Has :
      (base : Text) (best : Option (Text × R)) (d : Dict R) (e : Text × R)
      → best_prefix base best d ≡ some e
      → (best ≡ some e) ⊎ (Has e d × (starts_with e.0 base ≡ true))
  unfolding best_prefix
  best_prefix-Has base best [] e h = inl h
  best_prefix-Has base best (x ∷ d) e h = elim (best_prefix-Has base (better base best x) d e h) [
    | inr (there, prefix) ↦ inr (inr there, prefix)
    | inl now ↦ elim (better-eq base best x e now) [
      | inl before ↦ inl before
      | inr (same, prefix) ↦ inr (inl same, prefix)
    ]
  ]

  rate_of-some :
      (o : Option (Text × R)) (q : R) → rate_of o ≡ some q → (b : Text) × (o ≡ some (b, q))
  rate_of-some none q h = absurd (ground arith)
  rate_of-some (some (b, p)) q h = (b, ground arith)

  is_at_least-le :
      (o : Option (Text × R)) (b : Text) (q : R) (n : ℕ)
      → o ≡ some (b, q)
      → is_at_least o n ≡ true
      → n ≤ length b
  is_at_least-le none b q n e h = absurd (ground arith)
  is_at_least-le (some (c, p)) b q n e h = ground arith

  All-NoLonger :
      (base : Text) (o : Option (Text × R)) (b : Text) (q : R) (d : Dict R)
      → o ≡ some (b, q)
      → All (λ x. starts_with x.0 base ≡ true → is_at_least o (length x.0) ≡ true) d
      → NoLonger base b d
  All-NoLonger base o b q [] e h = tt
  All-NoLonger base o b q (x ∷ d) e h =
      (λ k. is_at_least-le o b q (length x.0) e (h.0 k), All-NoLonger base o b q d e h.1)

  by_prefix :
      (d : Dict R) (model : Text) (q : R)
      → get (lower model) d ≡ none
      → get (undated (lower model)) d ≡ none
      → rate_for d model ≡ some q
      → rate_of (best_prefix (undated (lower model)) none d) ≡ some q
  unfolding rate_for
  by_prefix d model q named dated h = elim (Bool-cases (is_empty model)) [
    | inl empty ↦ absurd (ground arith)
    | inr given ↦ rw (given, named, dated) at h
  ]

  -- A model that is not in the table by its name, with or without a date at its end, is priced by the
  -- longest key that its undated name starts with.
  pub rate_for-NoLonger :
      (d : Dict R) (model : Text) (q : R)
      → get (lower model) d ≡ none
      → get (undated (lower model)) d ≡ none
      → rate_for d model ≡ some q
      → (b : Text) × Has (b, q) d
        × (starts_with b (undated (lower model)) ≡ true)
        × NoLonger (undated (lower model)) b d
  rate_for-NoLonger d model q named dated h =
      let base = undated (lower model) in
      let (b, best) =
        rate_of-some (best_prefix base none d) q (by_prefix d model q named dated h) in
      elim (best_prefix-Has base none d (b, q) best) [
        | inl impossible ↦ absurd (ground arith)
        | inr (there, prefix) ↦ (
          b,
          there,
          prefix,
          All-NoLonger base (best_prefix base none d) b q d best (best_prefix-at_least base none d),
        )
      ]
