-- ===== src/Wire/Packet/Response.antt =====
-- `build_response` and `build_query` of lanid.py against `parse_packet`.
use pipe_os.Prelude.{
  ℕ, ◌+◌, ◌/◌, ◌%◌, ◌<◌, ◌≡◌, refl, ap, ◌∙◌, Bool, true, false, not, if◌then◌else◌, ◌==◌, bit_and,
  List, [], ◌∷◌, ◌++◌, map, length, length-append, slice, slice-middle, append_assoc, append-nil,
  arith,
}
use pipe_os.Wire.Result.{ok}
use pipe_os.Wire.Name.{Bytes, lower}
use pipe_os.Wire.Name.RoundTrip.{wire_name, encode_name-wire, read_name-wire}
use pipe_os.Wire.Struct.{pack_2h, pack_3h, unpack_2h, word16, pack16-eq, word16-halves}
use pipe_os.Wire.Packet.{
  Record, parse_question, parse_questions, parse_records, parse_packet, concat, build_response,
  build_query,
}
use pipe_os.Wire.Packet.Records.{Name, labels, spell, IsWireName, ReadsAs}

-- Each of the encoded records is read as the record beside it.
pub data AllRead : List Bytes → List Record → Type 0 where
  nil : AllRead [] []
  cons :
      {out : Bytes} {r : Record} {outs : List Bytes} {rs : List Record}
      → ReadsAs out r
      → AllRead outs rs
      → AllRead (out ∷ outs) (r ∷ rs)

parse_records-AllRead :
    (pre : Bytes) {outs : List Bytes} {rs : List Record}
    → AllRead outs rs
    → parse_records (length outs) (pre ++ concat outs) (length pre) ≡ rs
unfolding parse_records concat
parse_records-AllRead pre nil = refl
parse_records-AllRead pre (cons {out} {r} {outs} {rs} h t) =
    let ih : parse_records (length outs) (pre ++ (out ++ concat outs)) (length pre + length out)
        ≡ rs =
      rw (← append_assoc pre out (concat outs))
        (rw (← length-append pre out) (parse_records-AllRead (pre ++ out) t)) in
    rw (h pre (concat outs), parse_records) (ap (λ k. r ∷ k) ih)

response_header : ℕ → Bytes
response_header n = 0 ∷ 0 ∷ 0x84 ∷ 0 ∷ 0 ∷ 0 ∷ (n / 0x100) ∷ (n % 0x100) ∷ 0 ∷ 0 ∷ 0 ∷ 0 ∷ []

-- A response with at most 65535 records is built without an error, and `parse_packet` reads it as
-- a response with no question and with each of its records, in their order.
pub parse_packet-build_response :
    (outs : List Bytes) (rs : List Record)
    → AllRead outs rs
    → length outs < 0x10000
    → (bytes : Bytes) × (build_response outs ≡ ok bytes)
      × (parse_packet bytes ≡ record { flags = 0x8400; questions = []; records = rs })
unfolding response_header build_response pack_3h parse_packet
parse_packet-build_response outs rs h few = (
  response_header (length outs) ++ concat outs,
  rw (pack16-eq (length outs) few),
  ap (λ t. record { flags = 0x8400; questions = []; records = t })
      (ap (λ k. parse_records k (response_header (length outs) ++ concat outs) 12) (omega arith)
        ∙ parse_records-AllRead (response_header (length outs)) h),
)

-- the class of a question: 1, and the bit that asks for a unicast answer
abbrev class_of : Bool → ℕ
class_of qu = if qu then 0x8001 else 1

abbrev question_fields : ℕ → Bool → Bytes
question_fields qtype qu =
    (qtype / 0x100) ∷ (qtype % 0x100) ∷ (class_of qu / 0x100) ∷ (class_of qu % 0x100) ∷ []

qu_bit :
    (qu : Bool)
    → not (bit_and (word16 (class_of qu / 0x100) (class_of qu % 0x100)) 0x8000 == 0) ≡ qu
qu_bit true = refl
qu_bit false = refl

pack_2h-question :
    (qtype : ℕ) (qu : Bool)
    → qtype < 0x10000
    → pack_2h qtype (class_of qu) ≡ ok (question_fields qtype qu)
unfolding pack_2h
pack_2h-question qtype true h = rw (pack16-eq qtype h)
pack_2h-question qtype false h = rw (pack16-eq qtype h)

parse_question-wire :
    (pre : Bytes) (n : Name) (qtype : ℕ) (qu : Bool)
    → IsWireName n
    → parse_question (pre ++ (wire_name (labels n) ++ question_fields qtype qu)) (length pre)
      ≡ ok (
        record { name = map lower (spell n); qtype = qtype; qu = qu },
        length pre + length (wire_name (labels n)) + 4,
      )
unfolding parse_question unpack_2h
parse_question-wire pre n qtype qu wire =
    let w = wire_name (labels n) in
    let fields = question_fields qtype qu in
    let bytes = pre ++ (w ++ fields) in
    let fields_at : slice bytes (length pre + length w) 4 ≡ fields =
      slice-middle bytes (pre ++ w) fields [] (length pre + length w) 4
        (simp (append_assoc, append-nil)) (omega (arith, length-append {0} pre w)) (omega arith) in
    rw (read_name-wire pre fields (labels n) wire)
      (rw fields_at (cc (word16-halves qtype, qu_bit qu)))

abbrev query_header : Bytes
query_header = 0 ∷ 0 ∷ 0 ∷ 0 ∷ 0 ∷ 1 ∷ 0 ∷ 0 ∷ 0 ∷ 0 ∷ 0 ∷ 0 ∷ []

-- A query for a name of plain labels is built without an error, and `parse_packet` reads it as
-- one question for the name in lower case, its type and its unicast flag, and no record.
pub parse_packet-build_query :
    (n : Name) (qtype : ℕ) (qu : Bool)
    → IsWireName n
    → qtype < 0x10000
    → (bytes : Bytes) × (build_query (spell n) qtype qu ≡ ok bytes)
      × (parse_packet bytes ≡ record {
        flags = 0;
        questions = record { name = map lower (spell n); qtype = qtype; qu = qu } ∷ [];
        records = [];
      })
unfolding build_query pack_3h parse_packet
parse_packet-build_query n qtype qu wire small = (
  query_header ++ (wire_name (labels n) ++ question_fields qtype qu),
  rw (encode_name-wire n.first n.others wire) (rw (pack_2h-question qtype qu small)),
  rw (parse_question-wire query_header n qtype qu wire, parse_questions),
)
