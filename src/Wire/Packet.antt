-- ===== src/Wire/Packet.antt =====
-- lanid.py, `parse_packet`, the `rr_*` builders, `build_response` and `build_query`. An IPv4
-- address stands for its four octets: `inet_aton` and `inet_ntoa` only change its spelling.
pub mod Records
pub mod Builders
pub mod Response
pub mod Adverts
use pipe_os.Prelude.{
  ℕ, zero, suc, ◌+◌, Bool, true, false, ◌&&◌, not, Option, none, some, List, [], ◌∷◌, ◌++◌, ltb,
  leb, ◌==◌, if◌then◌else◌, length, slice, bit_and, Text,
}
use pipe_os.Wire.Result.{Result, ok, err, ◌>>=◌}
use pipe_os.Wire.Name.{Bytes, encode_name, read_name}
use pipe_os.Wire.Struct.{
  pack16, pack_2h, pack_3h, pack_2hih, unpack_2h, unpack_3h, unpack_2hih, word16,
}
use pipe_os.Wire.Txt.{Pairs, txt_kv, txt_rdata}

pub data Rdata : Type 0 where
  address : Bytes → Rdata
  target : Text → Rdata
  service : ℕ → ℕ → ℕ → Text → Rdata
  pairs : Pairs → Rdata
  raw : Bytes → Rdata

pub record Question : Type 0 where
  pub name : Text
  pub qtype : ℕ
  pub qu : Bool

pub record Record : Type 0 where
  pub name : Text
  pub rtype : ℕ
  pub ttl : ℕ
  pub rdata : Rdata

pub record Packet : Type 0 where
  pub flags : ℕ
  pub questions : List Question
  pub records : List Record

-- One round of the first loop: the question and the offset behind it.
unfoldable pub parse_question : Bytes → ℕ → Result (Question × ℕ)
parse_question bytes off = do
  named ← read_name bytes off
  fields ← unpack_2h (slice bytes named.1 4)
  ok (
    record { name = named.0; qtype = fields.0; qu = not (bit_and fields.1 0x8000 == 0) },
    named.1 + 4,
  )

-- The branches on `rtype`, for `rdlen` bytes of rdata that begin at `off`.
unfoldable pub parse_rdata : Bytes → ℕ → ℕ → Bytes → Result Rdata
parse_rdata bytes rtype off octets =
    if rtype == 1 && length octets == 4
    then ok (address octets)
    else if rtype == 12
    then (do named ← read_name bytes off; ok (target named.0))
    else if rtype == 33 && leb 7 (length octets)
    then (do
      fields ← unpack_3h (slice octets 0 6)
      named ← read_name bytes (off + 6)
      ok (service fields.0 fields.1 fields.2 named.0))
    else if rtype == 16
    then ok (pairs (txt_kv octets))
    else ok (raw octets)

-- One round of the second loop; `none` is its `break`.
unfoldable pub parse_record : Bytes → ℕ → Result (Option (Record × ℕ))
parse_record bytes off = do
  named ← read_name bytes off
  fields ← unpack_2hih (slice bytes named.1 10)
  let octets = slice bytes (named.1 + 10) fields.3
  if ltb (length octets) fields.3 then ok none else do
    rdata ← parse_rdata bytes fields.0 (named.1 + 10) octets
    ok (
        some (
          record { name = named.0; rtype = fields.0; ttl = fields.2; rdata = rdata },
          named.1 + 10 + fields.3,
        ))

-- The first loop: what it read, and where it ended unless it raised.
unfoldable pub parse_questions : ℕ → Bytes → ℕ → List Question × Option ℕ
parse_questions zero bytes off = ([], some off)
parse_questions (suc n) bytes off = elim (parse_question bytes off) [
  | err e ↦ ([], none)
  | ok (q, next) ↦ (let rest = parse_questions n bytes next in (q ∷ rest.0, rest.1))
]

unfoldable pub parse_records : ℕ → Bytes → ℕ → List Record
parse_records zero bytes off = []
parse_records (suc n) bytes off = elim (parse_record bytes off) [
  | err e ↦ []
  | ok none ↦ []
  | ok (some (r, next)) ↦ r ∷ parse_records n bytes next
]

unfoldable pub parse_body : Bytes → ℕ → ℕ → ℕ → Packet
unfolding parse_questions parse_records
parse_body bytes flags qd rest =
    let (questions, after) = parse_questions qd bytes 12 in
    record {
      flags = flags;
      questions = questions;
      records = elim after [ none ↦ [] | some off ↦ parse_records rest bytes off ];
    }

unfoldable pub parse_packet : Bytes → Packet
unfolding parse_body
parse_packet (t ∷ i ∷ f ∷ g ∷ q ∷ d ∷ a ∷ n ∷ u ∷ s ∷ r ∷ o ∷ body) =
    parse_body (t ∷ i ∷ f ∷ g ∷ q ∷ d ∷ a ∷ n ∷ u ∷ s ∷ r ∷ o ∷ body) (word16 f g) (word16 q d)
      (word16 a n + word16 u s + word16 r o)
parse_packet _ = record { flags = 0; questions = []; records = [] }

-- `_rr`
unfoldable pub rr : Text → ℕ → ℕ → Bytes → Bool → Result Bytes
rr name rtype ttl rdata flush = do
  owner ← encode_name name
  fixed ← pack_2hih rtype (if flush then 0x8001 else 0x0001) ttl (length rdata)
  ok (owner ++ (fixed ++ rdata))

unfoldable pub rr_a : Text → Bytes → ℕ → Result Bytes
unfolding rr
rr_a name ip ttl = rr name 1 ttl ip true

unfoldable pub rr_ptr : Text → Text → ℕ → Result Bytes
unfolding rr
rr_ptr name to ttl = do rdata ← encode_name to; rr name 12 ttl rdata false

unfoldable pub rr_srv : Text → ℕ → Text → ℕ → Result Bytes
unfolding rr
rr_srv name port to ttl = do
  fixed ← pack_3h 0 0 port
  host ← encode_name to
  rr name 33 ttl (fixed ++ host) true

unfoldable pub rr_txt : Text → Pairs → ℕ → Result Bytes
unfolding rr
rr_txt name kv ttl = do rdata ← txt_rdata kv; rr name 16 ttl rdata true

unfoldable pub concat : List Bytes → Bytes
concat [] = []
concat (b ∷ bs) = b ++ concat bs

unfoldable pub build_response : List Bytes → Result Bytes
unfolding concat
build_response rrs = do
  start ← pack_3h 0 0x8400 0
  count ← pack_3h (length rrs) 0 0
  ok ((start ++ count) ++ concat rrs)

unfoldable pub build_query : Text → ℕ → Bool → Result Bytes
build_query name qtype qu = do
  head ← pack_3h 0 0 1
  tail ← pack_3h 0 0 0
  asked ← encode_name name
  fields ← pack_2h qtype (if qu then 0x8001 else 1)
  ok ((head ++ tail) ++ (asked ++ fields))
