-- ===== src/Ledger/Money.antt =====
-- Amounts of ledger.py. A spend is a float that was rounded to four places: it stands here for
-- its number of ten-thousandths of a dollar. A cap is a whole number of dollars. With that
-- `spent * 100 / cap >= 100` and `>= WARN_PCT` are comparisons of products: rounding is monotonic,
-- `cap * 100` and `cap * 80` are exact, and a spend below them is away by far more than an ulp.
use pipe_os.Prelude.{ℕ, zero, suc, ◌+◌, ◌*◌, ◌/◌, ◌%◌, Bool, [], ◌∷◌, ltb, leb, if◌then◌else◌, Text}

-- Ten-thousandths in a dollar.
abbrev pub unit : ℕ
unit = 10000

-- `spent * 100 / cap >= 100`
unfoldable pub reached : ℕ → ℕ → Bool
reached cap spent = leb (cap * 100 * unit) (spent * 100)

-- `spent * 100 / cap >= WARN_PCT`
unfoldable pub warns : ℕ → ℕ → Bool
warns cap spent = leb (cap * 80 * unit) (spent * 100)

show_digits : ℕ → ℕ → Text → Text
show_digits zero n out = out
show_digits (suc fuel) n out =
    let shorter = show_digits fuel (n / 10) ((b'0' + n % 10) ∷ out) in
    if ltb n 10 then (b'0' + n) ∷ out else shorter

-- `"%d" % n`
unfoldable pub show : ℕ → Text
unfolding show_digits
show n = show_digits (suc n) n []
