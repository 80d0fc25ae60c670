-- ===== src/Wire/Struct.antt =====
-- The `struct` formats of lanid.py, in network order: packing raises on a number that does not
-- fit, unpacking on any other count of bytes than the format's.
use pipe_os.Prelude.{
  ℕ, ◌+◌, ◌*◌, ◌/◌, ◌%◌, ◌<◌, ◌≡◌, [], ◌∷◌, ◌++◌, ltb, if◌then◌else◌, lt→ltb, arith,
}
use pipe_os.Wire.Result.{Result, ok, err, struct_error, ◌>>=◌}
use pipe_os.Wire.Name.{Bytes}

-- `struct.pack("!H", x)`
unfoldable pub pack16 : ℕ → Result Bytes
pack16 x = if ltb x 0x10000 then ok (x / 0x100 ∷ x % 0x100 ∷ []) else err struct_error

-- `struct.pack("!I", x)`
unfoldable pub pack32 : ℕ → Result Bytes
pack32 x =
    if ltb x 0x1_0000_0000
    then ok (x / 0x100_0000 ∷ x / 0x1_0000 % 0x100 ∷ x / 0x100 % 0x100 ∷ x % 0x100 ∷ [])
    else err struct_error

-- `struct.pack("!2H", x, y)`
unfoldable pub pack_2h : ℕ → ℕ → Result Bytes
unfolding pack16
pack_2h x y = do a ← pack16 x; b ← pack16 y; ok (a ++ b)

-- `struct.pack("!3H", x, y, z)`
unfoldable pub pack_3h : ℕ → ℕ → ℕ → Result Bytes
unfolding pack16
pack_3h x y z = do a ← pack16 x; b ← pack16 y; c ← pack16 z; ok (a ++ (b ++ c))

-- `struct.pack("!2HIH", rtype, rclass, ttl, rdlen)`
unfoldable pub pack_2hih : ℕ → ℕ → ℕ → ℕ → Result Bytes
unfolding pack16 pack32
pack_2hih rtype rclass ttl rdlen = do
  a ← pack16 rtype
  b ← pack16 rclass
  c ← pack32 ttl
  d ← pack16 rdlen
  ok (a ++ (b ++ (c ++ d)))

abbrev pub word16 : ℕ → ℕ → ℕ
word16 a b = a * 0x100 + b

abbrev pub word32 : ℕ → ℕ → ℕ → ℕ → ℕ
word32 a b c d = ((a * 0x100 + b) * 0x100 + c) * 0x100 + d

unfoldable pub unpack_2h : Bytes → Result (ℕ × ℕ)
unpack_2h (a ∷ b ∷ c ∷ d ∷ []) = ok (word16 a b, word16 c d)
unpack_2h _ = err struct_error

unfoldable pub unpack_3h : Bytes → Result (ℕ × ℕ × ℕ)
unpack_3h (a ∷ b ∷ c ∷ d ∷ e ∷ f ∷ []) = ok (word16 a b, word16 c d, word16 e f)
unpack_3h _ = err struct_error

unfoldable pub unpack_2hih : Bytes → Result (ℕ × ℕ × ℕ × ℕ)
unpack_2hih (a ∷ b ∷ c ∷ d ∷ e ∷ f ∷ g ∷ h ∷ i ∷ j ∷ []) =
    ok (word16 a b, word16 c d, word32 e f g h, word16 i j)
unpack_2hih _ = err struct_error

-- What is packed is unpacked again.
pub pack16-eq : (x : ℕ) → x < 0x10000 → pack16 x ≡ ok (x / 0x100 ∷ x % 0x100 ∷ [])
unfolding pack16
pack16-eq x h = rw (lt→ltb x 0x10000 h)

pub pack32-eq :
    (x : ℕ)
    → x < 0x1_0000_0000
    → pack32 x ≡ ok (x / 0x100_0000 ∷ x / 0x1_0000 % 0x100 ∷ x / 0x100 % 0x100 ∷ x % 0x100 ∷ [])
unfolding pack32
pack32-eq x h = rw (lt→ltb x 0x1_0000_0000 h)

pub word16-halves : (x : ℕ) → word16 (x / 0x100) (x % 0x100) ≡ x
word16-halves x = omega arith

pub word32-quarters :
    (x : ℕ)
    → x < 0x1_0000_0000
    → word32 (x / 0x100_0000) (x / 0x1_0000 % 0x100) (x / 0x100 % 0x100) (x % 0x100) ≡ x
word32-quarters x h = omega arith
