-- ===== src/Tests/Plain.antt =====
-- Tools of the vault that hide nothing: a text is its length and its characters, and a cipher puts 16
-- zeros in front.
use pipe_os.Prelude.{
  ℕ, zero, suc, ◌≡◌, refl, ap, Bool, true, false, [], ◌∷◌, ◌++◌, some, length, take, drop,
  take-append, drop-append, length-append, ◌==◌, Text, arith,
}
use pipe_os.Prelude.Dict.{Dict}
use pipe_os.Vault.{Secret, Secrets, Tools, Works}

abbrev pub zeros : ℕ → Text
zeros zero = []
zeros (suc n) = 0 ∷ zeros n

abbrev put_text : Text → Text → Text
put_text s r = length s ∷ (s ++ r)

abbrev take_text : Text → Text × Text
take_text [] = ([], [])
take_text (n ∷ r) = (take n r, drop n r)

abbrev first : Text → ℕ
first [] = 0
first (n ∷ r) = n

abbrev tail : Text → Text
tail [] = []
tail (n ∷ r) = r

abbrev put_copies : Dict ℕ → Text → Text
put_copies [] r = r
put_copies ((m, n) ∷ d) r = put_text m (n ∷ put_copies d r)

abbrev take_copies : ℕ → Text → Dict ℕ × Text
take_copies zero r = ([], r)
take_copies (suc k) r =
    let (m, r1) = take_text r in let (d, r2) = take_copies k (tail r1) in ((m, first r1) ∷ d, r2)

take_copies-put_copies : (d : Dict ℕ) (r : Text) → take_copies (length d) (put_copies d r) ≡ (d, r)
take_copies-put_copies [] r = refl
take_copies-put_copies ((m, n) ∷ d) r =
    rw
      (
        take-append m (n ∷ put_copies d r),
        drop-append m (n ∷ put_copies d r),
        take_copies-put_copies d r,
      )
      refl

abbrev flag : Bool → ℕ
flag true = 1
flag false = 0

unfoldable pub put_secret : Secret → Text → Text
put_secret s r = put_text s.v (
    flag s.raw
    ∷ put_text s.consumer (s.set_at ∷ put_text s.by (length s.shared ∷ put_copies s.shared r)))

unfoldable pub take_secret : Text → Secret × Text
take_secret r =
    let (v, r1) = take_text r in
    let (consumer, r2) = take_text (tail r1) in
    let (by, r3) = take_text (tail r2) in
    let (shared, r4) = take_copies (first r3) (tail r3) in
    (
      record {
        v = v;
        raw = first r1 == 1;
        consumer = consumer;
        set_at = first r2;
        by = by;
        shared = shared;
      },
      r4,
    )

flag_one : (b : Bool) → (flag b == 1) ≡ b
flag_one true = refl
flag_one false = refl

take_secret-put_secret : (s : Secret) (r : Text) → take_secret (put_secret s r) ≡ (s, r)
unfolding take_secret put_secret
take_secret-put_secret s r =
    let r4 = put_copies s.shared r in
    let r3 = length s.shared ∷ r4 in
    let r2 = s.set_at ∷ put_text s.by r3 in
    let r1 = flag s.raw ∷ put_text s.consumer r2 in
    rw
      (
        take-append s.v r1,
        drop-append s.v r1,
        take-append s.consumer r2,
        drop-append s.consumer r2,
        take-append s.by r3,
        drop-append s.by r3,
        take_copies-put_copies s.shared r,
        flag_one s.raw,
      )
      refl

abbrev put_secrets : Secrets → Text → Text
put_secrets [] r = r
put_secrets ((name, s) ∷ d) r = put_text name (put_secret s (put_secrets d r))

abbrev take_secrets : ℕ → Text → Secrets
take_secrets zero r = []
take_secrets (suc k) r =
    let (name, r1) = take_text r in let (s, r2) = take_secret r1 in (name, s) ∷ take_secrets k r2

take_secrets-put_secrets : (d : Secrets) (r : Text) → take_secrets (length d) (put_secrets d r) ≡ d
take_secrets-put_secrets [] r = refl
take_secrets-put_secrets ((name, s) ∷ d) r =
    let rest = put_secrets d r in
    rw
      (
        take-append name (put_secret s rest),
        drop-append name (put_secret s rest),
        take_secret-put_secret s rest,
        take_secrets-put_secrets d r,
      )
      refl

abbrev pub plain_tools : Tools
plain_tools = record {
  kdf = λ s salt. s ++ salt;
  encrypt = λ key salt p. some (zeros 16 ++ p);
  decrypt = λ key c. some (drop 16 c);
  mac = λ key c. zeros 32;
  b64 = λ s. s;
  unb64 = λ s. s;
  unhex = λ s. s;
  dumps = λ d. length d ∷ put_secrets d [];
  loads = λ s. some (take_secrets (first s) (tail s));
}

pub plain_works : Works plain_tools
plain_works = record {
  decrypts = λ key salt p. (zeros 16 ++ p, refl, refl, ground (arith, length-append (zeros 16) p));
  tag_length = λ key c. refl;
  unb64-b64 = λ s. refl;
  loads-dumps = λ d. ap some (take_secrets-put_secrets d []);
}
