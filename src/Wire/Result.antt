-- ===== src/Wire/Result.antt =====
-- lanid.py: what the wire half may raise (`ValueError` and `struct.error`), with one constructor
-- for each place that raises, and `out_of_fuel`, which only a model's loop could return.

pub data WireError : Type 0 where
  past_end truncated_pointer forward_pointer pointer_loop unsupported_label : WireError
  byte_range struct_error unencodable out_of_fuel : WireError

pub data Result {ℓ} (A : Type ℓ) : Type ℓ where
  ok : A → Result A
  err : WireError → Result A

infixl 5 ◌>>=◌
abbrev pub ◌>>=◌ {ℓ κ} : {A : Type ℓ} {B : Type κ} → Result A → (A → Result B) → Result B
ok a >>= f = f a
err e >>= f = err e
