-- ===== src/Tests/Wire.antt =====
-- lanid.py's wire half on concrete packets.
use pipe_os.Prelude.{
  ℕ, ◌≡◌, ◌≢◌, ◌+◌, refl, [], ◌∷◌, ◌++◌, map, length, codes, join, arith, All, List,
}
use pipe_os.Wire.Result.{ok, err, out_of_fuel, forward_pointer}
use pipe_os.Wire.Name.{Bytes, lower, encode_name, read_name}
use pipe_os.Wire.Name.Total.{read_name-total}
use pipe_os.Wire.Name.RoundTrip.{wire_name, read_name-encode_name}
use pipe_os.Wire.Utf8.{encode_char, utf8_decode}
use pipe_os.Wire.Txt.{Pairs}
use pipe_os.Wire.Txt.RoundTrip.{FitsTxt}
use pipe_os.Wire.Packet.{parse_packet}
use pipe_os.Wire.Packet.Records.{Name, spell, IsWireName}
use pipe_os.Wire.Packet.Adverts.{
  Advert, host, pointer_to, served_at, facts, found, DnsName, IsAdvert, announce,
  parse_packet-announce,
}

-- `pipeos` at the start, and a name that points back to it.
abbrev packet : Bytes
packet = 6 ∷ (codes "pIpEoS" ++ (0 ∷ 3 ∷ (codes "box" ++ (0xc0 ∷ 0 ∷ []))))

read_name_follows : read_name packet 8 ≡ ok (codes "box.pipeos", 14)
unfolding read_name join
read_name_follows = refl

-- A pointer to itself is no backward pointer.
read_name_self : read_name (0xc0 ∷ 0 ∷ []) 0 ≡ err forward_pointer
unfolding read_name join
read_name_self = refl

read_name-total_example : read_name packet 8 ≢ err out_of_fuel
read_name-total_example = read_name-total packet 8

abbrev lobby : Name
lobby = record { first = codes "PipeOS"; others = codes "local" ∷ [] }

lobby-IsWireName : IsWireName lobby
lobby-IsWireName = (
  ((λ e. cc), ground arith, omega arith, omega arith),
  (((λ e. cc), ground arith, omega arith, omega arith), tt),
)

read_name-encode_name_example :
    (out : Bytes) × (encode_name (spell lobby) ≡ ok out)
    × (read_name ((1 ∷ 2 ∷ []) ++ (out ++ 3 ∷ [])) (length {A = ℕ} (1 ∷ 2 ∷ []))
        ≡ ok (map lower (spell lobby), length {A = ℕ} (1 ∷ 2 ∷ []) + length out))
read_name-encode_name_example =
    read_name-encode_name (1 ∷ 2 ∷ []) (3 ∷ []) (codes "PipeOS") (codes "local" ∷ [])
      lobby-IsWireName

-- A torn character and a stray byte
utf8_decode_bad : utf8_decode (0xe2 ∷ 0x82 ∷ 0x41 ∷ 0xff ∷ []) ≡ 0xfffd ∷ 0x41 ∷ 0xfffd ∷ []
unfolding utf8_decode
utf8_decode_bad = refl

abbrev identity : Pairs
identity = (codes "id", codes "ab12") ∷ (codes "c", codes "1") ∷ (codes "n", []) ∷ []

identity-FitsTxt : All FitsTxt identity
identity-FitsTxt = (
  ((λ e. cc), ground arith, omega arith, (unfold encode_char in omega arith)),
  (
    ((λ e. cc), ground arith, omega arith, (unfold encode_char in omega arith)),
    (((λ e. cc), ground arith, omega arith, (unfold encode_char in omega arith)), tt),
  ),
)

lobby-DnsName : DnsName lobby
lobby-DnsName = (lobby-IsWireName, unfold wire_name in omega arith)

-- What a Machine announces: its service, where it is served, its facts and its address.
abbrev adverts : List Advert
adverts =
    pointer_to lobby 120 lobby
    ∷ served_at lobby 120 80 lobby
    ∷ facts lobby 120 identity
    ∷ host lobby 120 (10 ∷ 0 ∷ 0 ∷ 7 ∷ [])
    ∷ []

adverts-IsAdvert : All IsAdvert adverts
adverts-IsAdvert = (
  (lobby-DnsName, omega arith, lobby-DnsName),
  (
    (lobby-DnsName, omega arith, lobby-DnsName, omega arith),
    (
      (lobby-DnsName, omega arith, identity-FitsTxt, ground arith, omega arith),
      ((lobby-DnsName, omega arith, refl), tt),
    ),
  ),
)

parse_packet-announce_example :
    (bytes : Bytes) × (announce adverts ≡ ok bytes)
    × (parse_packet bytes ≡ record { flags = 0x8400; questions = []; records = map found adverts })
parse_packet-announce_example = parse_packet-announce adverts adverts-IsAdvert (omega arith)
