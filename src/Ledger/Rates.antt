-- ===== src/Ledger/Rates.antt =====
-- ledger.py, `rate_for`: the entry of the table of rates that a model is priced by.
pub mod Longest
use pipe_os.Prelude.{
  ℕ, ◌-◌, Bool, true, false, ◌&&◌, Option, none, some, List, [], ◌∷◌, leb, ltb, ◌==◌, if◌then◌else◌,
  length, take, drop, Text, is_empty,
}
use pipe_os.Prelude.Dict.{Dict, get}
use pipe_os.Prelude.Ascii.{lower, starts_with}

digits_only : Text → Bool
digits_only [] = true
digits_only (c ∷ s) = leb b'0' c && leb c b'9' && digits_only s

-- `re.sub(r"-\d{8}$", "", m)`, for digits of ASCII and a text without a newline at its end
unfoldable pub undated : Text → Text
unfolding digits_only
undated m =
    let tail = drop (length m - 9) m in
    if leb 9 (length m) && starts_with (b'-' ∷ []) tail && digits_only (drop 1 tail)
    then take (length m - 9) m
    else m

module _ {R : Type 0} where
  -- `best is None or len(k) > len(best)`
  abbrev pub longer : Text → Option (Text × R) → Bool
  longer k none = true
  longer k (some (best, r)) = ltb (length best) (length k)

  -- One round of it.
  unfoldable pub better : Text → Option (Text × R) → Text × R → Option (Text × R)
  better base best (k, r) = if starts_with k base && longer k best then some (k, r) else best

  -- The loop over the table, with the rate of the best key so far.
  unfoldable pub best_prefix : Text → Option (Text × R) → Dict R → Option (Text × R)
  unfolding starts_with better
  best_prefix base best [] = best
  best_prefix base best (x ∷ d) = best_prefix base (better base best x) d

  -- `r.get(best) if best else None`
  abbrev pub rate_of : Option (Text × R) → Option R
  rate_of none = none
  rate_of (some (k, r)) = if is_empty k then none else some r

  -- `rate_for`
  unfoldable pub rate_for : Dict R → Text → Option R
  rate_for d model = if is_empty model then none else elim (get (lower model) d) [
    | some r ↦ some r
    | none ↦ elim (get (undated (lower model)) d) [
      | some r ↦ some r
      | none ↦ rate_of (best_prefix (undated (lower model)) none d)
    ]
  ]
