-- ===== src/Wire/Packet/Records.antt =====
-- What the `rr_*` builders of lanid.py write, `parse_packet` reads back, record by record.
use pipe_os.Prelude.{
  ℕ, ◌+◌, ◌/◌, ◌%◌, ◌<◌, ◌≡◌, refl, ap, ◌∙◌, false, some, List, [], ◌∷◌, ◌++◌, map, length,
  length-append, slice, slice-middle, Text, All, append_assoc, arith, join, ltb,
}
use pipe_os.Wire.Result.{ok}
use pipe_os.Wire.Name.{Bytes, dot, lower, read_name}
use pipe_os.Wire.Name.RoundTrip.{WireLabel, wire_name, read_name-wire}
use pipe_os.Wire.Struct.{
  pack_2hih, unpack_2hih, pack16-eq, pack32-eq, word16-halves, word32-quarters,
}
use pipe_os.Wire.Packet.{Rdata, Record, parse_rdata, parse_record}

-- A name as its labels, of which there is at least one.
pub record Name : Type 0 where
  pub first : Text
  pub others : List Text

abbrev pub labels : Name → List Text
labels n = n.first ∷ n.others

abbrev pub spell : Name → Text
spell n = join dot (labels n)

abbrev pub IsWireName : Name → Type 0
IsWireName n = All WireLabel (labels n)

-- Behind `pre`, the bytes `out` of a record are read as the record `r`, up to their end.
abbrev pub ReadsAs : Bytes → Record → Type 0
ReadsAs out r =
    (pre rest : Bytes)
    → parse_record (pre ++ (out ++ rest)) (length pre) ≡ ok (some (r, length pre + length out))

-- the ten bytes between a name and its rdata
abbrev pub fixed : ℕ → ℕ → ℕ → ℕ → Bytes
fixed rtype rclass ttl n =
    (rtype / 0x100)
    ∷ (rtype % 0x100)
    ∷ (rclass / 0x100)
    ∷ (rclass % 0x100)
    ∷ (ttl / 0x100_0000)
    ∷ (ttl / 0x1_0000 % 0x100)
    ∷ (ttl / 0x100 % 0x100)
    ∷ (ttl % 0x100)
    ∷ (n / 0x100)
    ∷ (n % 0x100)
    ∷ []

pub pack_2hih-eq :
    (rtype rclass ttl n : ℕ)
    → rtype < 0x10000
    → rclass < 0x10000
    → ttl < 0x1_0000_0000
    → n < 0x10000
    → pack_2hih rtype rclass ttl n ≡ ok (fixed rtype rclass ttl n)
unfolding pack_2hih
pack_2hih-eq rtype rclass ttl n h k l m =
    rw (pack16-eq rtype h) (rw (pack16-eq rclass k) (rw (pack32-eq ttl l) (rw (pack16-eq n m))))

unpack_2hih-fixed :
    (rtype rclass ttl n : ℕ)
    → ttl < 0x1_0000_0000
    → unpack_2hih (fixed rtype rclass ttl n) ≡ ok (rtype, rclass, ttl, n)
unfolding unpack_2hih
unpack_2hih-fixed rtype rclass ttl n h =
    cc (word16-halves rtype, word16-halves rclass, word32-quarters ttl h, word16-halves n)

-- `parse_record` from what its calls return.
parse_record_steps :
    (bytes : Bytes) (off here rtype rclass ttl n : ℕ) (name : Text) (head rdata : Bytes) (r : Rdata)
    → read_name bytes off ≡ ok (name, here)
    → slice bytes here 10 ≡ head
    → unpack_2hih head ≡ ok (rtype, rclass, ttl, n)
    → slice bytes (here + 10) n ≡ rdata
    → length rdata ≡ n
    → parse_rdata bytes rtype (here + 10) rdata ≡ ok r
    → parse_record bytes off
      ≡ ok (some (record { name = name; rtype = rtype; ttl = ttl; rdata = r }, here + 10 + n))
unfolding parse_record
parse_record_steps bytes off here rtype rclass ttl n name head rdata r named headed unpacked sliced
      whole parsed =
    let enough : ltb (length rdata) n ≡ false = ground arith in
    rw named (rw headed (rw unpacked (rw sliced (rw enough (rw parsed)))))

-- The bytes of a record whose rdata are `rdata`.
abbrev pub laid_out : Name → ℕ → ℕ → ℕ → Bytes → Bytes
laid_out n rtype rclass ttl rdata =
    wire_name (labels n) ++ (fixed rtype rclass ttl (length rdata) ++ rdata)

abbrev pub ParsesAs : ℕ → Bytes → Rdata → Type 0
ParsesAs rtype rdata r =
    (pre rest : Bytes) → parse_rdata (pre ++ (rdata ++ rest)) rtype (length pre) rdata ≡ ok r

module _ (n : Name) (rtype rclass ttl : ℕ) (rdata : Bytes) (r : Rdata) where
  abbrev head_of : Bytes
  head_of = fixed rtype rclass ttl (length rdata)

  regroup_fixed :
      (pre rest : Bytes)
      → pre ++ (laid_out n rtype rclass ttl rdata ++ rest)
        ≡ (pre ++ wire_name (labels n)) ++ (head_of ++ (rdata ++ rest))
  regroup_fixed pre rest = simp append_assoc

  regroup_rdata :
      (pre rest : Bytes)
      → pre ++ (laid_out n rtype rclass ttl rdata ++ rest)
        ≡ (pre ++ wire_name (labels n) ++ head_of) ++ (rdata ++ rest)
  regroup_rdata pre rest = simp append_assoc

  here_past :
      (pre : Bytes)
      → length pre + length (wire_name (labels n)) + 10
        ≡ length (pre ++ wire_name (labels n) ++ head_of)
  here_past pre =
      let w = wire_name (labels n) in
      omega (arith, length-append {0} pre w, length-append {0} (pre ++ w) head_of)

  pub ReadsAs-laid_out :
      IsWireName n
      → ttl < 0x1_0000_0000
      → ParsesAs rtype rdata r
      → ReadsAs
          (laid_out n rtype rclass ttl rdata)
          (record { name = map lower (spell n); rtype = rtype; ttl = ttl; rdata = r })
  ReadsAs-laid_out wire small parses pre rest =
      let w = wire_name (labels n) in
      let bytes = pre ++ (laid_out n rtype rclass ttl rdata ++ rest) in
      let here = length pre + length w in
      let named : read_name bytes (length pre) ≡ ok (map lower (spell n), here) =
        rw (append_assoc w (head_of ++ rdata) rest)
          (read_name-wire pre ((head_of ++ rdata) ++ rest) (labels n) wire) in
      let at_fixed : slice bytes here 10 ≡ head_of =
        slice-middle bytes (pre ++ w) head_of (rdata ++ rest) here 10 (regroup_fixed pre rest)
          (omega (arith, length-append {0} pre w)) (omega arith) in
      let at_rdata : slice bytes (here + 10) (length rdata) ≡ rdata =
        slice-middle bytes (pre ++ w ++ head_of) rdata rest (here + 10) (length rdata)
          (regroup_rdata pre rest)
          (omega (arith, length-append {0} pre w, length-append {0} (pre ++ w) head_of)) refl in
      let parsed : parse_rdata bytes rtype (here + 10) rdata ≡ ok r =
        rw regroup_rdata (rw (here_past pre) (parses (pre ++ w ++ head_of) rest)) in
      parse_record_steps bytes (length pre) here rtype rclass ttl (length rdata)
        (map lower (spell n)) head_of rdata r named at_fixed
        (unpack_2hih-fixed rtype rclass ttl (length rdata) small) at_rdata refl parsed
      ∙ ap
          (λ k.
            ok (
              some (record { name = map lower (spell n); rtype = rtype; ttl = ttl; rdata = r }, k)))
          (omega (arith, length-append {0} w (head_of ++ rdata)))
