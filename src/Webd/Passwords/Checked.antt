-- ===== src/Webd/Passwords/Checked.antt =====
-- webd.py, the passwords: what `check_hash` accepts of a hash that `hash_password` made.
use pipe_os.Prelude.{
  ℕ, ◌≡◌, ◌≤◌, Bool, ◌&&◌, ◌||◌, ◌==◌, leb, length, true, some, List, [], ◌∷◌, Text, codes, join,
  Lacks, All,
}
use pipe_os.Prelude.Ascii.{strip_space}
use pipe_os.Webd.{Tools}

-- The parts of a hash between its dollars.
abbrev pub parts_of : Text → Text → List Text
parts_of salt digest = [] ∷ codes "6" ∷ salt ∷ digest ∷ []

-- A character of a salt.
abbrev pub is_salt_char : ℕ → Bool
is_salt_char c =
    (leb b'a' c && leb c b'z')
    || (leb b'A' c && leb c b'Z')
    || (leb b'0' c && leb c b'9')
    || c == b'.'
    || c == b'/'

-- A salt such as openssl draws: at most sixteen letters, digits, dots and slashes, and one at least.
abbrev pub IsSalt : Text → Type 0
IsSalt salt = (1 ≤ length salt) × (length salt ≤ 16) × All (λ c. is_salt_char c ≡ true) salt

-- What openssl prints for such a salt: "$6$", the salt, a dollar and the digest, which has no dollar.
abbrev pub Crypts : Tools → Type 0
Crypts t =
    (salt line out : Text)
    → t.passwd salt line ≡ some out
    → IsSalt salt
    → (digest : Text) × (strip_space out ≡ join b'$' (parts_of salt digest)) × Lacks b'$' digest
