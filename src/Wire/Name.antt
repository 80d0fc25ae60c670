-- ===== src/Wire/Name.antt =====
-- lanid.py, `encode_name` and `read_name`: DNS names with compression pointers.
pub mod Total
pub mod RoundTrip
use pipe_os.Prelude.{
  ℕ, zero, suc, ◌+◌, ◌*◌, Bool, true, false, Option, none, some, List, [], ◌∷◌, ◌++◌, map, bit_and,
  bit_or, ltb, leb, ◌==◌, ◌&&◌, if◌then◌else◌, length, get_elem?, slice, Text, split, join, strip,
}
use pipe_os.Wire.Result.{
  Result, ok, err, past_end, truncated_pointer, forward_pointer, pointer_loop, unsupported_label,
  byte_range, out_of_fuel, ◌>>=◌,
}

abbrev pub Bytes : Type 0
Bytes = List ℕ

abbrev pub dot : ℕ
dot = b'.'

-- `label.encode("ascii", "replace")`, one character of it
unfoldable pub ascii_encode : ℕ → ℕ
ascii_encode c = if ltb c 128 then c else b'?'

-- `bytes.decode("ascii", "replace")`, one byte of it: U+FFFD stands for what is not ASCII.
unfoldable pub ascii_decode : ℕ → ℕ
ascii_decode b = if ltb b 128 then b else 0xfffd

-- `str.lower()` of a character that `ascii_decode` can return
unfoldable pub lower : ℕ → ℕ
lower c = if leb b'A' c && leb c b'Z' then c + 32 else c

-- `bytes([len(raw)]) + raw` for each label: `bytes` raises on a number above 255.
unfoldable pub encode_labels : List Text → Result Bytes
unfolding ascii_encode
encode_labels [] = ok []
encode_labels (label ∷ labels) = do
  let raw = map ascii_encode label
  rest ← encode_labels labels
  if ltb 255 (length raw) then err byte_range else ok (length raw ∷ raw ++ rest)

unfoldable pub encode_name : Text → Result Bytes
unfolding encode_labels
encode_name name = do out ← encode_labels (split dot (strip dot name)); ok (out ++ 0 ∷ [])

-- The variables of the loop in `read_name`.
pub record Cursor : Type 0 where
  pub off : ℕ
  pub labels : List Text
  pub resume : Option ℕ
  pub hops : ℕ

pub data Progress : Type 0 where
  done : Result (Text × ℕ) → Progress
  more : Cursor → Progress

abbrev pub or_else : Option ℕ → ℕ → ℕ
or_else none d = d
or_else (some e) d = e

-- what stands behind the loop: the terminating zero is at `off`
unfoldable pub finish : Cursor → Result (Text × ℕ)
unfolding lower
finish c = ok (map lower (join dot c.labels), or_else c.resume (c.off + 1))

unfoldable pub pointer : ℕ → ℕ → ℕ
pointer n low = bit_or (bit_and n 0x3f * 256) low

-- the branch for a compression pointer whose first byte is `n`
unfoldable pub follow : Bytes → ℕ → Cursor → Option ℕ → Progress
unfolding pointer
follow bytes n c none = done (err truncated_pointer)
follow bytes n c (some low) =
    if leb c.off (pointer n low)
    then done (err forward_pointer)
    else if ltb 16 (c.hops + 1)
    then done (err pointer_loop)
    else more (record c {
      off = pointer n low;
      resume = some (or_else c.resume (c.off + 2));
      hops = c.hops + 1;
    })

-- One round of the loop, at the byte `n` that stands at `off`.
unfoldable pub read_at : Bytes → Cursor → ℕ → Progress
unfolding finish follow ascii_decode
read_at bytes c n =
    if n == 0
    then done (finish c)
    else if bit_and n 0xc0 == 0xc0
    then follow bytes n c (get_elem? bytes (c.off + 1))
    else if bit_and n 0xc0 == 0
    then more (record c {
      off = c.off + 1 + n;
      labels = c.labels ++ map ascii_decode (slice bytes (c.off + 1) n) ∷ [];
    })
    else done (err unsupported_label)

unfoldable pub read_round : Bytes → Cursor → Option ℕ → Progress
unfolding read_at
read_round bytes c none = done (err past_end)
read_round bytes c (some n) = read_at bytes c n

unfoldable pub read_loop : ℕ → Bytes → Cursor → Result (Text × ℕ)
unfolding read_round
read_loop zero bytes c = err out_of_fuel
read_loop (suc fuel) bytes c = elim (read_round bytes c (get_elem? bytes c.off)) [
  | done r ↦ r
  | more c' ↦ read_loop fuel bytes c'
]

-- Each of at most 16 pointers, and the start, may be followed by a walk through the packet.
abbrev pub read_fuel : Bytes → ℕ
read_fuel bytes = suc (17 * suc (length bytes))

abbrev pub start : ℕ → Cursor
start off = record { off = off; labels = []; resume = none; hops = 0 }

unfoldable pub read_name : Bytes → ℕ → Result (Text × ℕ)
unfolding read_loop
read_name bytes off = read_loop (read_fuel bytes) bytes (start off)
