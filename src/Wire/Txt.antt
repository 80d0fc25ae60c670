-- ===== src/Wire/Txt.antt =====
-- lanid.py, `_txt_kv` and the body of `rr_txt`: the key/value pairs of a TXT record.
pub mod RoundTrip
use pipe_os.Prelude.{
  ℕ, zero, suc, Bool, true, false, List, [], ◌∷◌, ◌++◌, ltb, ◌==◌, if◌then◌else◌, length, take,
  drop, Text, text_eq, is_empty,
}
use pipe_os.Wire.Result.{Result, ok, err, byte_range, ◌>>=◌}
use pipe_os.Wire.Name.{Bytes}
use pipe_os.Wire.Utf8.{utf8_encode, utf8_decode}

-- A Python dict: keys in the order of their first insertion.
abbrev pub Pairs : Type 0
Pairs = List (Text × Text)

-- `kv[k] = v`
unfoldable pub put : Text → Text → Pairs → Pairs
put k v [] = (k, v) ∷ []
put k v ((j, w) ∷ kv) = if text_eq j k then (k, v) ∷ kv else (j, w) ∷ put k v kv

-- `k, sep, v = s.partition("=")`, with `sep` as a flag
unfoldable pub partition : Text → Text × Bool × Text
partition [] = ([], false, [])
partition (c ∷ s) =
    let rest = partition s in if c == b'=' then ([], true, s) else (c ∷ rest.0, rest.1, rest.2)

-- The body of the loop in `_txt_kv`: one string of the record.
unfoldable pub put_string : Text → Pairs → Pairs
unfolding put partition
put_string s kv = let parts = partition s in if is_empty parts.0 then kv else put parts.0 parts.2 kv

-- The loop: a length byte and a string, cut short where the record ends. Each round reads at
-- least one byte, so the length of the record is fuel enough.
unfoldable pub txt_loop : ℕ → Bytes → Pairs → Pairs
unfolding put_string
txt_loop fuel [] kv = kv
txt_loop zero (n ∷ rdata) kv = kv
txt_loop (suc fuel) (n ∷ rdata) kv =
    txt_loop fuel (drop n rdata) (put_string (utf8_decode (take n rdata)) kv)

unfoldable pub txt_kv : Bytes → Pairs
unfolding txt_loop
txt_kv rdata = txt_loop (length rdata) rdata []

-- `("%s=%s" % (k, v)).encode("utf-8")[:255]` behind its length
unfoldable pub txt_string : Text × Text → Result Bytes
txt_string kv = do
  s ← utf8_encode (kv.0 ++ (b'=' ∷ kv.1))
  let cut = take 255 s
  ok (length cut ∷ cut)

unfoldable pub txt_strings : Pairs → Result Bytes
unfolding txt_string
txt_strings [] = ok []
txt_strings (kv ∷ kvs) = do s ← txt_string kv; rest ← txt_strings kvs; ok (s ++ rest)

-- `out or b"\x00"`
unfoldable pub or_zero : Bytes → Bytes
or_zero [] = 0 ∷ []
or_zero (b ∷ bytes) = b ∷ bytes

unfoldable pub txt_rdata : Pairs → Result Bytes
unfolding txt_strings or_zero
txt_rdata kv = do out ← txt_strings kv; ok (or_zero out)
