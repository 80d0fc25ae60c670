-- ===== src/Wire/Txt/RoundTrip.antt =====
-- `_txt_kv` of lanid.py reads back the pairs that `rr_txt` wrote.
use pipe_os.Prelude.{
  ℕ, zero, suc, ◌*◌, ◌≤◌, ◌≡◌, ◌≢◌, refl, ap, ◌∙◌, sym, true, false, [], ◌∷◌, ◌++◌, length,
  length-append, take, take-append, drop-append, Text, text_eq, text_eq_iff, Bool-cases, inl, inr,
  is_empty, Lacks, All, append_assoc, append-nil, arith,
}
use pipe_os.Wire.Result.{ok}
use pipe_os.Wire.Name.{Bytes}
use pipe_os.Wire.Utf8.{utf8_decode}
use pipe_os.Wire.Utf8.RoundTrip.{Scalar, text_bytes, utf8_encode-ok, utf8_decode-text_bytes}
use pipe_os.Wire.Txt.{
  Pairs, put, partition, put_string, txt_loop, txt_kv, txt_string, txt_strings, txt_rdata,
}

-- A pair that fits into one string: a key, no "=" in it, and at most 255 bytes in all.
abbrev pub line : Text × Text → Text
line kv = kv.0 ++ (b'=' ∷ kv.1)

abbrev pub FitsTxt : Text × Text → Type 0
FitsTxt kv =
    (kv.0 ≢ []) × Lacks b'=' kv.0 × All Scalar (line kv) × (length (text_bytes (line kv)) ≤ 255)

-- No later pair has the key `k`.
abbrev pub Fresh : Text → Pairs → Type 0
Fresh k = All (λ kv. text_eq kv.0 k ≡ false)

abbrev pub DistinctKeys : Pairs → Type 0
DistinctKeys [] = Unit
DistinctKeys (kv ∷ kvs) = Fresh kv.0 kvs × DistinctKeys kvs

partition-line : (k v : Text) → Lacks b'=' k → partition (k ++ (b'=' ∷ v)) ≡ (k, true, v)
unfolding partition
partition-line [] v h = refl
partition-line (c ∷ k) v h = ground (arith, partition-line k v h.1)

put-Fresh : (k v : Text) (kv : Pairs) → Fresh k kv → put k v kv ≡ kv ++ (k, v) ∷ []
unfolding put
put-Fresh k v [] h = refl
put-Fresh k v ((j, w) ∷ kv) h = rw h.0 (ap (λ t. (j, w) ∷ t) (put-Fresh k v kv h.1))

take_all : (n : ℕ) (s : Bytes) → length s ≤ n → take n s ≡ s
take_all zero [] h = refl
take_all zero (b ∷ s) h = absurd (omega arith)
take_all (suc n) [] h = refl
take_all (suc n) (b ∷ s) h = ap (λ t. b ∷ t) (take_all n s (omega arith))

txt_string-eq :
    (kv : Text × Text)
    → FitsTxt kv
    → txt_string kv ≡ ok (length (text_bytes (line kv)) ∷ text_bytes (line kv))
unfolding txt_string
txt_string-eq kv h =
    rw (utf8_encode-ok (line kv) h.2) (rw (take_all 255 (text_bytes (line kv)) h.3))

abbrev pub strings : Pairs → Bytes
strings [] = []
strings (kv ∷ kvs) = length (text_bytes (line kv)) ∷ (text_bytes (line kv) ++ strings kvs)

txt_strings-eq : (kvs : Pairs) → All FitsTxt kvs → txt_strings kvs ≡ ok (strings kvs)
unfolding txt_strings
txt_strings-eq [] h = refl
txt_strings-eq (kv ∷ kvs) h = rw (txt_string-eq kv h.0) (rw (txt_strings-eq kvs h.1))

text_eq-false_sym : (s t : Text) → text_eq s t ≡ false → text_eq t s ≡ false
text_eq-false_sym s t h = elim (Bool-cases (text_eq t s)) [
  | inl same ↦ absurd (ground (arith, (text_eq_iff s t).1 (sym ((text_eq_iff t s).0 same))))
  | inr other ↦ other
]

Fresh-middle :
    (k : Text) (acc kvs : Pairs) (kv : Text × Text)
    → Fresh k (acc ++ kv ∷ kvs)
    → text_eq kv.0 k ≡ false
Fresh-middle k [] kvs kv h = h.0
Fresh-middle k (a ∷ acc) kvs kv h = Fresh-middle k acc kvs kv h.1

Fresh-before :
    (acc : Pairs) (kv : Text × Text) (kvs : Pairs) → DistinctKeys (acc ++ kv ∷ kvs) → Fresh kv.0 acc
Fresh-before [] kv kvs d = tt
Fresh-before (a ∷ acc) kv kvs d =
    (text_eq-false_sym kv.0 a.0 (Fresh-middle a.0 acc kvs kv d.0), Fresh-before acc kv kvs d.1)

is_empty-false : (k : Text) → k ≢ [] → is_empty k ≡ false
is_empty-false [] ne = absurd (ne refl)
is_empty-false (c ∷ k) ne = refl

put_string-line :
    (kv : Text × Text) (acc : Pairs)
    → FitsTxt kv
    → Fresh kv.0 acc
    → put_string (line kv) acc ≡ acc ++ kv ∷ []
unfolding put_string
put_string-line kv acc h fresh =
    rw (partition-line kv.0 kv.1 h.1) (rw (is_empty-false kv.0 h.0) (put-Fresh kv.0 kv.1 acc fresh))

txt_loop-string :
    (fuel : ℕ) (s rest : Bytes) (acc : Pairs)
    → txt_loop (suc fuel) (length s ∷ (s ++ rest)) acc
      ≡ txt_loop fuel rest (put_string (utf8_decode s) acc)
unfolding txt_loop
txt_loop-string fuel s rest acc = cc (drop-append s rest, take-append s rest)

txt_loop-strings :
    (fuel : ℕ) (kvs acc : Pairs)
    → length (strings kvs) ≤ fuel
    → All FitsTxt kvs
    → DistinctKeys (acc ++ kvs)
    → txt_loop fuel (strings kvs) acc ≡ acc ++ kvs
unfolding txt_loop
txt_loop-strings fuel [] acc f h d = sym (append-nil acc)
txt_loop-strings zero (kv ∷ kvs) acc f h d = absurd (omega arith)
txt_loop-strings (suc fuel) (kv ∷ kvs) acc f h d =
    let s = text_bytes (line kv) in
    let kept : DistinctKeys ((acc ++ kv ∷ []) ++ kvs) = rw append_assoc d in
    let ih =
      txt_loop-strings fuel kvs (acc ++ kv ∷ []) (omega (arith, length-append {0} s (strings kvs)))
        h.1 kept in
    let decoded =
      ap (λ t. txt_loop fuel (strings kvs) (put_string t acc))
        (utf8_decode-text_bytes (line kv) h.0.2) in
    let stored =
      ap (λ t. txt_loop fuel (strings kvs) t)
        (put_string-line kv acc h.0 (Fresh-before acc kv kvs d)) in
    txt_loop-string fuel s (strings kvs) acc
    ∙ decoded
    ∙ stored
    ∙ ih
    ∙ append_assoc acc (kv ∷ []) kvs

-- The pairs of a TXT record are encoded without an error and are read back, in their order, when
-- their keys are distinct and not empty, without "=", no text has a surrogate, and each pair
-- takes at most 255 bytes.
pub txt_kv-txt_rdata :
    (kvs : Pairs)
    → All FitsTxt kvs
    → DistinctKeys kvs
    → (out : Bytes) × (txt_rdata kvs ≡ ok out) × (txt_kv out ≡ kvs)
unfolding txt_rdata txt_kv
txt_kv-txt_rdata [] h d = (0 ∷ [], refl, unfold txt_loop put_string partition utf8_decode in refl)
txt_kv-txt_rdata (kv ∷ kvs) h d = (
  strings (kv ∷ kvs),
  rw (txt_strings-eq (kv ∷ kvs) h),
  txt_loop-strings (length (strings (kv ∷ kvs))) (kv ∷ kvs) [] (omega arith) h d,
)

strings-length : (kvs : Pairs) → All FitsTxt kvs → length (strings kvs) ≤ 256 * length kvs
strings-length [] h = omega arith
strings-length (kv ∷ kvs) h =
    let s = text_bytes (line kv) in
    let short = h.0.3 in omega (arith, length-append {0} s (strings kvs), strings-length kvs h.1)

-- Each pair takes at most 256 bytes, and no pair takes one.
pub txt_rdata-length :
    (kvs : Pairs) (out : Bytes)
    → All FitsTxt kvs
    → txt_rdata kvs ≡ ok out
    → length out ≤ suc (256 * length kvs)
unfolding txt_rdata
txt_rdata-length [] out h e = let same : 0 ∷ [] ≡ out = ground arith in rw (← same) (omega arith)
txt_rdata-length (kv ∷ kvs) out h e =
    let same : strings (kv ∷ kvs) ≡ out = ground (arith, txt_strings-eq (kv ∷ kvs) h) in
    rw (← same) (omega (arith, strings-length (kv ∷ kvs) h))
