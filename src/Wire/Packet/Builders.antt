-- ===== src/Wire/Packet/Builders.antt =====
-- `rr_a`, `rr_ptr`, `rr_srv` and `rr_txt` of lanid.py, each read back by `parse_packet`'s loop.
use pipe_os.Prelude.{
  ℕ, ◌+◌, ◌/◌, ◌%◌, ◌<◌, ◌≡◌, refl, ap, ◌∙◌, Bool, true, false, if◌then◌else◌, List, [], ◌∷◌, ◌++◌,
  map, length, length-append, append_assoc, arith, Text, le→leb,
}
use pipe_os.Wire.Result.{Result, ok}
use pipe_os.Wire.Name.{Bytes, lower, read_name}
use pipe_os.Wire.Name.RoundTrip.{wire_labels, wire_name, encode_name-wire, read_name-wire}
use pipe_os.Wire.Struct.{pack_3h, unpack_3h, pack16-eq, word16-halves}
use pipe_os.Wire.Txt.{Pairs, txt_kv, txt_rdata}
use pipe_os.Wire.Packet.{
  Rdata, address, target, service, pairs, Record, parse_rdata, rr, rr_a, rr_ptr, rr_srv, rr_txt,
}
use pipe_os.Wire.Packet.Records.{
  Name, labels, spell, IsWireName, ReadsAs, ParsesAs, laid_out, pack_2hih-eq, ReadsAs-laid_out,
}

abbrev class_bits : Bool → ℕ
class_bits flush = if flush then 0x8001 else 0x0001

rr-eq :
    (n : Name) (rtype ttl : ℕ) (rdata : Bytes) (flush : Bool)
    → IsWireName n
    → rtype < 0x10000
    → ttl < 0x1_0000_0000
    → length rdata < 0x10000
    → rr (spell n) rtype ttl rdata flush ≡ ok (laid_out n rtype (class_bits flush) ttl rdata)
unfolding rr
rr-eq n rtype ttl rdata flush wire h k l =
    let small : class_bits flush < 0x10000 = ground arith in
    rw (encode_name-wire n.first n.others wire)
      (rw (pack_2hih-eq rtype (class_bits flush) ttl (length rdata) h small k l))

-- What a record is read as: its owner in lower case, and its rdata.
abbrev pub as_read : Name → ℕ → ℕ → Rdata → Record
as_read n rtype ttl r = record { name = map lower (spell n); rtype = rtype; ttl = ttl; rdata = r }

-- `out` is what a builder returned, and is read as `r`.
abbrev pub Builds : Result Bytes → Record → Type 0
Builds built r = (out : Bytes) × (built ≡ ok out) × ReadsAs out r

wire_name-pos : (ls : List Text) → 0 < length (wire_name ls)
unfolding wire_name
wire_name-pos ls = omega (arith, length-append {0} (wire_labels ls) (0 ∷ []))

module _ (n : Name) (ttl : ℕ) (wire : IsWireName n) (small : ttl < 0x1_0000_0000) where
  ParsesAs-address : (ip : Bytes) → length ip ≡ 4 → ParsesAs 1 ip (address ip)
  unfolding parse_rdata
  ParsesAs-address ip h pre rest = ground arith

  -- An A record.
  pub rr_a-Builds :
      (ip : Bytes) → length ip ≡ 4 → Builds (rr_a (spell n) ip ttl) (as_read n 1 ttl (address ip))
  unfolding rr_a
  rr_a-Builds ip h = (
    laid_out n 1 0x8001 ttl ip,
    rr-eq n 1 ttl ip true wire (omega arith) small (omega arith),
    ReadsAs-laid_out n 1 0x8001 ttl ip (address ip) wire small (ParsesAs-address ip h),
  )

  ParsesAs-target :
      (to : Name)
      → IsWireName to
      → ParsesAs 12 (wire_name (labels to)) (target (map lower (spell to)))
  unfolding parse_rdata
  ParsesAs-target to h pre rest = rw (read_name-wire pre rest (labels to) h)

  -- A PTR record.
  pub rr_ptr-Builds :
      (to : Name)
      → IsWireName to
      → length (wire_name (labels to)) < 0x10000
      → Builds (rr_ptr (spell n) (spell to) ttl) (as_read n 12 ttl (target (map lower (spell to))))
  unfolding rr_ptr
  rr_ptr-Builds to h room = (
    laid_out n 12 0x0001 ttl (wire_name (labels to)),
    rw (encode_name-wire to.first to.others h)
        (rr-eq n 12 ttl (wire_name (labels to)) false wire (omega arith) small room),
    ReadsAs-laid_out n 12 0x0001 ttl (wire_name (labels to)) (target (map lower (spell to))) wire
        small (ParsesAs-target to h),
  )

  past_six :
      (pre : Bytes) (port : ℕ)
      → length pre + 6 ≡ length (pre ++ 0 ∷ 0 ∷ 0 ∷ 0 ∷ (port / 0x100) ∷ (port % 0x100) ∷ [])
  past_six pre port =
      omega (arith, length-append {0} pre (0 ∷ 0 ∷ 0 ∷ 0 ∷ (port / 0x100) ∷ (port % 0x100) ∷ []))

  abbrev srv_rdata : ℕ → Name → Bytes
  srv_rdata port to =
      (0 ∷ 0 ∷ 0 ∷ 0 ∷ (port / 0x100) ∷ (port % 0x100) ∷ []) ++ wire_name (labels to)

  ParsesAs-service :
      (port : ℕ) (to : Name)
      → IsWireName to
      → ParsesAs 33 (srv_rdata port to) (service 0 0 port (map lower (spell to)))
  unfolding parse_rdata unpack_3h
  ParsesAs-service port to h pre rest =
      let six : Bytes = 0 ∷ 0 ∷ 0 ∷ 0 ∷ (port / 0x100) ∷ (port % 0x100) ∷ [] in
      let w = wire_name (labels to) in
      let named : read_name (pre ++ (six ++ (w ++ rest))) (length pre + 6)
          ≡ ok (map lower (spell to), length pre + 6 + length w) =
        rw (past_six pre port) (
          rw (← append_assoc pre six (w ++ rest))
            (read_name-wire (pre ++ six) rest (labels to) h)) in
      rw (le→leb 7 (length (srv_rdata port to)) (omega (arith, wire_name-pos (labels to))))
        (rw named (cc (word16-halves port)))

  -- For names of plain labels, a TTL below 2^32, a port below 2^16 and a target of under 65520
  -- bytes, `rr_srv` builds a record without an error, and the packet reader gives back, wherever
  -- the record stands, its owner in lower case, its TTL, and priority 0, weight 0, the port and
  -- the target in lower case.
  pub rr_srv-Builds :
      (port : ℕ) (to : Name)
      → port < 0x10000
      → IsWireName to
      → length (wire_name (labels to)) < 0xfff0
      → Builds
          (rr_srv (spell n) port (spell to) ttl)
          (as_read n 33 ttl (service 0 0 port (map lower (spell to))))
  unfolding rr_srv pack_3h
  rr_srv-Builds port to h k room = (
    laid_out n 33 0x8001 ttl (srv_rdata port to),
    rw (pack16-eq port h) (
        rw (encode_name-wire to.first to.others k)
          (rr-eq n 33 ttl (srv_rdata port to) true wire (omega arith) small (omega arith))),
    ReadsAs-laid_out n 33 0x8001 ttl (srv_rdata port to) (service 0 0 port (map lower (spell to)))
        wire small (ParsesAs-service port to k),
  )

  ParsesAs-pairs : (rdata : Bytes) → ParsesAs 16 rdata (pairs (txt_kv rdata))
  unfolding parse_rdata
  ParsesAs-pairs rdata pre rest = refl

  -- A TXT record.
  pub rr_txt-Builds :
      (kvs : Pairs) (rdata : Bytes)
      → txt_rdata kvs ≡ ok rdata
      → txt_kv rdata ≡ kvs
      → length rdata < 0x10000
      → Builds (rr_txt (spell n) kvs ttl) (as_read n 16 ttl (pairs kvs))
  unfolding rr_txt
  rr_txt-Builds kvs rdata e back room = (
    laid_out n 16 0x8001 ttl rdata,
    rw e (rr-eq n 16 ttl rdata true wire (omega arith) small room),
    ReadsAs-laid_out n 16 0x8001 ttl rdata (pairs kvs) wire small
        (λ pre rest. ParsesAs-pairs rdata pre rest ∙ ap (λ t. ok (pairs t)) back),
  )
