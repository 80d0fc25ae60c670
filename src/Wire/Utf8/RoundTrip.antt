-- ===== src/Wire/Utf8/RoundTrip.antt =====
-- `bytes.decode` of lanid.py reads back the UTF-8 that `str.encode` wrote.
use pipe_os.Prelude.{
  ℕ, ◌+◌, ◌/◌, ◌%◌, ◌≤◌, ◌<◌, ◌≡◌, ◌⊎◌, refl, ap, ◌∙◌, [], ◌∷◌, ◌++◌, Text, All, arith,
}
use pipe_os.Wire.Result.{ok, err}
use pipe_os.Wire.Name.{Bytes}
use pipe_os.Wire.Utf8.{encode_char, utf8_encode, none_pending, decode_from, utf8_decode}

-- A code point that is no surrogate.
abbrev pub Scalar : ℕ → Type 0
Scalar c = (c < 0x110000) × ((c < 0xd800) ⊎ (0xdfff < c))

decode_one :
    (c : ℕ) (rest : Bytes)
    → c < 0x80
    → decode_from none_pending (c ∷ rest) ≡ c ∷ decode_from none_pending rest
unfolding decode_from
decode_one c rest h = ground arith

decode_two :
    (c : ℕ) (rest : Bytes)
    → 0x80 ≤ c
    → c < 0x800
    → decode_from none_pending ((0xc0 + c / 0x40) ∷ (0x80 + c % 0x40) ∷ rest)
      ≡ c ∷ decode_from none_pending rest
unfolding decode_from
decode_two c rest h k = ground arith

decode_three :
    (c : ℕ) (rest : Bytes)
    → 0x800 ≤ c
    → c < 0x10000
    → (c < 0xd800) ⊎ (0xdfff < c)
    → decode_from none_pending
        ((0xe0 + c / 0x1000) ∷ (0x80 + c / 0x40 % 0x40) ∷ (0x80 + c % 0x40) ∷ rest)
      ≡ c ∷ decode_from none_pending rest
unfolding decode_from
decode_three c rest h k s = ground arith

decode_four :
    (c : ℕ) (rest : Bytes)
    → 0x10000 ≤ c
    → c < 0x110000
    → decode_from none_pending (
        (0xf0 + c / 0x40000)
        ∷ (0x80 + c / 0x1000 % 0x40)
        ∷ (0x80 + c / 0x40 % 0x40)
        ∷ (0x80 + c % 0x40)
        ∷ rest)
      ≡ c ∷ decode_from none_pending rest
unfolding decode_from
decode_four c rest h k = ground arith

-- What `encode_char` returns for a character.
abbrev pub char_bytes : ℕ → Bytes
char_bytes c = elim (encode_char c) [ ok out ↦ out | err e ↦ [] ]

encode_char-ok : (c : ℕ) → Scalar c → encode_char c ≡ ok (char_bytes c)
unfolding encode_char
encode_char-ok c h = ground arith

decode-char_bytes :
    (c : ℕ) (rest : Bytes)
    → Scalar c
    → decode_from none_pending (char_bytes c ++ rest) ≡ c ∷ decode_from none_pending rest
unfolding encode_char
decode-char_bytes c rest h =
    ground (arith, decode_one c rest, decode_two c rest, decode_three c rest, decode_four c rest)

abbrev pub text_bytes : Text → Bytes
text_bytes [] = []
text_bytes (c ∷ s) = char_bytes c ++ text_bytes s

pub utf8_encode-ok : (s : Text) → All Scalar s → utf8_encode s ≡ ok (text_bytes s)
unfolding utf8_encode
utf8_encode-ok [] h = refl
utf8_encode-ok (c ∷ s) h = rw (encode_char-ok c h.0) (rw (utf8_encode-ok s h.1))

decode-text_bytes : (s : Text) → All Scalar s → decode_from none_pending (text_bytes s) ≡ s
decode-text_bytes [] h = unfold decode_from in refl
decode-text_bytes (c ∷ s) h =
    decode-char_bytes c (text_bytes s) h.0 ∙ ap (λ t. c ∷ t) (decode-text_bytes s h.1)

pub utf8_decode-text_bytes : (s : Text) → All Scalar s → utf8_decode (text_bytes s) ≡ s
unfolding utf8_decode
utf8_decode-text_bytes s h = decode-text_bytes s h

-- Every text without surrogates is encoded without an error, and decoding gives it back.
pub utf8_decode-utf8_encode :
    (s : Text) → All Scalar s → (out : Bytes) × (utf8_encode s ≡ ok out) × (utf8_decode out ≡ s)
utf8_decode-utf8_encode s h = (text_bytes s, utf8_encode-ok s h, utf8_decode-text_bytes s h)
