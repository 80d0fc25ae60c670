-- ===== src/Wire/Utf8.antt =====
-- UTF-8 as lanid.py uses it: `str.encode("utf-8")`, which raises on a surrogate, and
-- `bytes.decode("utf-8", "replace")`, which puts U+FFFD for each maximal part that is no character.
pub mod RoundTrip
use pipe_os.Prelude.{
  ℕ, ◌+◌, ◌-◌, ◌*◌, ◌/◌, ◌%◌, ◌≤◌, ◌<◌, ◌≡◌, ◌⊎◌, inl, inr, refl, Bool, true, false, ◌&&◌, Option,
  none, some, List, [], ◌∷◌, ◌++◌, ltb, leb, ◌==◌, if◌then◌else◌, Text, All, append_assoc, arith,
}
use pipe_os.Wire.Result.{Result, ok, err, unencodable, ◌>>=◌}
use pipe_os.Wire.Name.{Bytes}

unfoldable pub encode_char : ℕ → Result Bytes
encode_char c =
    if ltb c 0x80
    then ok (c ∷ [])
    else if ltb c 0x800
    then ok ((0xc0 + c / 0x40) ∷ (0x80 + c % 0x40) ∷ [])
    else if ltb c 0x10000
    then if leb 0xd800 c && ltb c 0xe000
      then err unencodable
      else ok ((0xe0 + c / 0x1000) ∷ (0x80 + c / 0x40 % 0x40) ∷ (0x80 + c % 0x40) ∷ [])
    else ok (
        (0xf0 + c / 0x40000)
        ∷ (0x80 + c / 0x1000 % 0x40)
        ∷ (0x80 + c / 0x40 % 0x40)
        ∷ (0x80 + c % 0x40)
        ∷ [])

unfoldable pub utf8_encode : Text → Result Bytes
unfolding encode_char
utf8_encode [] = ok []
utf8_encode (c ∷ s) = do out ← encode_char c; rest ← utf8_encode s; ok (out ++ rest)

-- A character that has begun: how many bytes it wants, what they gave so far, and the range of
-- the next one.
pub record Pending : Type 0 where
  pub need : ℕ
  pub acc : ℕ
  pub low : ℕ
  pub high : ℕ

abbrev pending : ℕ → ℕ → ℕ → ℕ → Option Pending
pending need acc low high = some (record { need = need; acc = acc; low = low; high = high })

-- Nothing has begun.
abbrev pub none_pending : Option Pending
none_pending = none

abbrev replacement : Text
replacement = 0xfffd ∷ []

begin : ℕ → Text × Option Pending
begin b =
    if ltb b 0x80
    then (b ∷ [], none)
    else if leb 0xc2 b && ltb b 0xe0
    then ([], pending 1 (b - 0xc0) 0x80 0xc0)
    else if b == 0xe0
    then ([], pending 2 0 0xa0 0xc0)
    else if b == 0xed
    then ([], pending 2 13 0x80 0xa0)
    else if leb 0xe1 b && ltb b 0xf0
    then ([], pending 2 (b - 0xe0) 0x80 0xc0)
    else if b == 0xf0
    then ([], pending 3 0 0x90 0xc0)
    else if b == 0xf4
    then ([], pending 3 4 0x80 0x90)
    else if leb 0xf1 b && ltb b 0xf4
    then ([], pending 3 (b - 0xf0) 0x80 0xc0)
    else (replacement, none)

-- The characters that one more byte gives, and what is pending behind it.
decode_step : Option Pending → ℕ → Text × Option Pending
unfolding begin
decode_step none b = begin b
decode_step (some p) b =
    if leb p.low b && ltb b p.high
    then (let acc = p.acc * 0x40 + (b - 0x80) in
        if p.need == 1 then (acc ∷ [], none) else ([], pending (p.need - 1) acc 0x80 0xc0))
    else (let (out, next) = begin b in (0xfffd ∷ out, next))

decode_end : Option Pending → Text
decode_end none = []
decode_end (some p) = replacement

unfoldable pub decode_from : Option Pending → Bytes → Text
unfolding decode_step decode_end
decode_from p [] = decode_end p
decode_from p (b ∷ bytes) = (decode_step p b).0 ++ decode_from (decode_step p b).1 bytes

unfoldable pub utf8_decode : Bytes → Text
unfolding decode_from
utf8_decode = decode_from none_pending
