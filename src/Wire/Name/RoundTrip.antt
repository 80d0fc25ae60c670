-- ===== src/Wire/Name/RoundTrip.antt =====
-- `read_name` of lanid.py reads back what `encode_name` wrote, wherever it stands in a packet.
use pipe_os.Prelude.{
  ℕ, zero, suc, ◌+◌, ◌≤◌, ◌<◌, ◌≡◌, ◌≢◌, refl, sym, ap, ◌∙◌, true, false, ◌&&◌, not, none, some,
  List, [], ◌∷◌, ◌++◌, map, length, bit_and, ◌==◌, append_assoc, append-nil, length-append,
  get_elem?, drop, take-append, get_elem?-append, Text, All, Labels, Lacks, join, strip-join,
  split-join, all_below, all_below_sound, arith,
}
use pipe_os.Wire.Result.{ok}
use pipe_os.Wire.Name.{
  Bytes, Cursor, more, read_round, read_loop, read_name, read_fuel, dot, ascii_encode, ascii_decode,
  lower, encode_labels, encode_name,
}

-- A label that DNS can carry: 1 to 63 ASCII characters, none of them a dot.
abbrev pub WireLabel : Text → Type 0
WireLabel l = (l ≢ []) × Lacks dot l × (length l < 64) × All (λ c. c < 128) l

label_bits_table : all_below 64 (λ n. not (bit_and n 0xc0 == 0xc0) && (bit_and n 0xc0 == 0)) ≡ true
unfolding all_below
label_bits_table = refl

label_bits : (n : ℕ) → n < 64 → ((bit_and n 0xc0 == 0xc0) ≡ false) × ((bit_and n 0xc0 == 0) ≡ true)
label_bits n h =
    let both =
      all_below_sound 64 (λ k. not (bit_and k 0xc0 == 0xc0) && (bit_and k 0xc0 == 0)) n
        label_bits_table h in
    ground arith

map-ascii_encode : (l : Text) → All (λ c. c < 128) l → map ascii_encode l ≡ l
unfolding ascii_encode
map-ascii_encode [] h = refl
map-ascii_encode (c ∷ l) h = ground (arith, map-ascii_encode l h.1)

map-ascii_decode : (l : Text) → All (λ c. c < 128) l → map ascii_decode l ≡ l
unfolding ascii_decode
map-ascii_decode [] h = refl
map-ascii_decode (c ∷ l) h = ground (arith, map-ascii_decode l h.1)

-- The bytes of plain labels.
abbrev pub wire_labels : List Text → Bytes
wire_labels [] = []
wire_labels (l ∷ ls) = length l ∷ l ++ wire_labels ls

encode_labels-wire : (ls : List Text) → All WireLabel ls → encode_labels ls ≡ ok (wire_labels ls)
unfolding encode_labels
encode_labels-wire [] h = refl
encode_labels-wire (l ∷ ls) h = ground (arith, map-ascii_encode l h.0.3, encode_labels-wire ls h.1)

drop_past : (pre : Bytes) (x : ℕ) (s : Bytes) → drop (suc (length pre)) (pre ++ x ∷ s) ≡ s
drop_past [] x s = refl
drop_past (y ∷ pre) x s = drop_past pre x s

drop_suc-append : (pre : Bytes) (x : ℕ) (s : Bytes) → drop (length pre + 1) (pre ++ x ∷ s) ≡ s
drop_suc-append pre x s =
    let e : length pre + 1 ≡ suc (length pre) = omega arith in rw e (drop_past pre x s)

length-pos : (l : Text) → l ≢ [] → 0 < length l
length-pos [] ne = absurd (ne refl)
length-pos (c ∷ l) ne = omega arith

read_label :
    (pre l rest : Bytes) (acc : List Text)
    → WireLabel l
    → read_round
        (pre ++ length l ∷ (l ++ rest))
        (record { off = length pre; labels = acc; resume = none; hops = 0 })
        (some (length l))
      ≡ more (record {
        off = length pre + 1 + length l;
        labels = acc ++ l ∷ [];
        resume = none;
        hops = 0;
      })
unfolding read_round
read_label pre l rest acc h = ground (
  arith,
  label_bits (length l) h.2,
  length-pos l h.0,
  drop_suc-append pre (length l) (l ++ rest),
  take-append l rest,
  map-ascii_decode l h.3,
)

abbrev at_label : ℕ → List Text → Cursor
at_label off acc = record { off = off; labels = acc; resume = none; hops = 0 }

length-past_label : (pre l : Bytes) → length (pre ++ length l ∷ l) ≡ length pre + 1 + length l
length-past_label pre l = omega (arith, length-append {0} pre (length l ∷ l))

read_loop-labels :
    (n : ℕ) (ls : List Text) (bytes pre rest : Bytes) (acc : List Text)
    → length ls < n
    → All WireLabel ls
    → bytes ≡ pre ++ (wire_labels ls ++ 0 ∷ rest)
    → read_loop n bytes (at_label (length pre) acc)
      ≡ ok (map lower (join dot (acc ++ ls)), length pre + length (wire_labels ls) + 1)
unfolding read_loop
read_loop-labels zero ls bytes pre rest acc n h e = absurd (omega arith)
read_loop-labels (suc n) [] bytes pre rest acc f h e =
    let there : get_elem? bytes (length pre) ≡ some 0 = rw e (get_elem?-append pre 0 rest) in
    rw (there, read_loop)
      (unfold read_round in
        rw append-nil (ap (λ k. ok (map lower (join dot acc), k)) (omega arith)))
read_loop-labels (suc n) (l ∷ ls) bytes pre rest acc f h e =
    let tail = wire_labels ls ++ 0 ∷ rest in
    let split_here : bytes ≡ pre ++ length l ∷ (l ++ tail) =
      e ∙ ap (λ t. pre ++ length l ∷ t) (append_assoc l (wire_labels ls) (0 ∷ rest)) in
    let there : get_elem? bytes (length pre) ≡ some (length l) =
      rw split_here (get_elem?-append pre (length l) (l ++ tail)) in
    let round : read_round bytes (at_label (length pre) acc) (some (length l))
        ≡ more (at_label (length pre + 1 + length l) (acc ++ l ∷ [])) =
      rw split_here (read_label pre l tail acc h.0) in
    let ih =
      read_loop-labels n ls bytes (pre ++ length l ∷ l) rest (acc ++ l ∷ []) (omega arith) h.1
        (split_here ∙ sym (append_assoc pre (length l ∷ l) tail)) in
    let past = length-past_label pre l in
    rw (there, read_loop)
      (rw (round, read_loop)
        (ap (λ k. read_loop n bytes (at_label k (acc ++ l ∷ []))) (sym past)
          ∙ ih
          ∙ ap
              (λ t. ok (
                map lower (join dot t),
                length (pre ++ length l ∷ l) + length (wire_labels ls) + 1,
              ))
              (append_assoc acc (l ∷ []) ls)
          ∙ ap (λ k. ok (map lower (join dot (acc ++ l ∷ ls)), k))
              (omega (arith, past, length-append {0} l (wire_labels ls)))))

Labels-WireLabel : (ls : List Text) → All WireLabel ls → Labels dot ls
Labels-WireLabel [] h = tt
Labels-WireLabel (l ∷ ls) h = ((h.0.0, h.0.1), Labels-WireLabel ls h.1)

Lacks-WireLabel : (ls : List Text) → All WireLabel ls → All (Lacks dot) ls
Lacks-WireLabel [] h = tt
Lacks-WireLabel (l ∷ ls) h = (h.0.1, Lacks-WireLabel ls h.1)

-- The bytes of a name made of plain labels.
unfoldable pub wire_name : List Text → Bytes
wire_name ls = wire_labels ls ++ 0 ∷ []

pub encode_name-wire :
    (w : Text) (ws : List Text)
    → All WireLabel (w ∷ ws)
    → encode_name (join dot (w ∷ ws)) ≡ ok (wire_name (w ∷ ws))
unfolding encode_name wire_name
encode_name-wire w ws h =
    rw (strip-join dot w ws (Labels-WireLabel (w ∷ ws) h))
      (rw (split-join dot w ws (Lacks-WireLabel (w ∷ ws) h)) (rw (encode_labels-wire (w ∷ ws) h)))

length_labels-le : (ls : List Text) → length ls ≤ length (wire_labels ls)
length_labels-le [] = omega arith
length_labels-le (l ∷ ls) = omega (arith, length_labels-le ls, length-append {0} l (wire_labels ls))

room_for_labels :
    (pre rest : Bytes) (ls : List Text)
    → length ls < read_fuel (pre ++ ((wire_labels ls ++ 0 ∷ []) ++ rest))
room_for_labels pre rest ls =
    let inner = wire_labels ls ++ 0 ∷ [] in
    omega (
      arith,
      length_labels-le ls,
      length-append {0} (wire_labels ls) (0 ∷ []),
      length-append {0} inner rest,
      length-append {0} pre (inner ++ rest),
    )

pub read_name-wire :
    (pre rest : Bytes) (ls : List Text)
    → All WireLabel ls
    → read_name (pre ++ (wire_name ls ++ rest)) (length pre)
      ≡ ok (map lower (join dot ls), length pre + length (wire_name ls))
unfolding read_name wire_name
read_name-wire pre rest ls h =
    let bytes = pre ++ ((wire_labels ls ++ 0 ∷ []) ++ rest) in
    let flat : bytes ≡ pre ++ (wire_labels ls ++ 0 ∷ rest) =
      ap (λ t. pre ++ t) (append_assoc (wire_labels ls) (0 ∷ []) rest) in
    let room : length ls < read_fuel bytes = room_for_labels pre rest ls in
    read_loop-labels (read_fuel bytes) ls bytes pre rest [] room h flat
    ∙ ap (λ k. ok (map lower (join dot ls), k))
        (omega (arith, length-append {0} (wire_labels ls) (0 ∷ [])))

-- A name of plain labels is encoded without an error, and `read_name` reads it back in lower case
-- behind any bytes and before any others, and stops right behind it.
pub read_name-encode_name :
    (pre rest : Bytes) (w : Text) (ws : List Text)
    → All WireLabel (w ∷ ws)
    → (out : Bytes) × (encode_name (join dot (w ∷ ws)) ≡ ok out)
      × (read_name (pre ++ (out ++ rest)) (length pre)
          ≡ ok (map lower (join dot (w ∷ ws)), length pre + length out))
read_name-encode_name pre rest w ws h =
    (wire_name (w ∷ ws), encode_name-wire w ws h, read_name-wire pre rest (w ∷ ws) h)
