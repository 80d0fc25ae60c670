-- ===== src/Vault.antt =====
-- vault.py, the envelope: what the file of the vault holds, and how it is opened and sealed. openssl,
-- `hashlib`, `hmac`, `base64` and `json` are the fields of `Tools`.
pub mod Names
pub mod Operations
pub mod Refinement
pub mod Export
pub mod Listing
use pipe_os.Prelude.{
  ℕ, ◌≡◌, ◌≤◌, Bool, true, false, ◌&&◌, ◌||◌, not, Option, none, some, List, [], ◌∷◌, ◌++◌, ◌-◌,
  leb, ltb, ◌==◌, if◌then◌else◌, length, take, drop, Text, text_eq, codes, join,
}
use pipe_os.Prelude.Fallible.{Fallible, ok, err, ◌>>=◌}
use pipe_os.Prelude.Dict.{Dict}
use pipe_os.Prelude.Ascii.{lower}

-- A secret: its value in base64 where it is raw, and the members that hold a copy, with the time.
pub record Secret : Type 0 where
  pub v : Text
  pub raw : Bool
  pub consumer : Text
  pub set_at : ℕ
  pub by : Text
  pub shared : Dict ℕ

-- What is sealed.
abbrev pub Secrets : Type 0
Secrets = Dict Secret

pub record Slot : Type 0 where
  pub salt : Text
  pub wrapped : Text

-- The envelope, as it lies on the stick; `payload` is its `data`.
pub record Env : Type 0 where
  pub version : ℕ
  pub seed : Text
  pub created : ℕ
  pub ident_hint : Text
  pub chassis : Slot
  pub recovery : Slot
  pub payload : Text
  pub updated : ℕ

-- What the hardware says it is.
pub record Ident : Type 0 where
  pub mac : Text
  pub serial : Text
  pub product : Text

-- `Locked` with its three messages, then `VaultError`, and the errors of `open` and `json`; `not_text`
-- is raised where bytes stand for a text.
pub data VaultError : Type 0 where
  integrity not_the_phrase another_chassis : VaultError
  too_short openssl_failed unknown_version exists_already no_secret bad_name contains_nul :
      VaultError
  unquotable no_file not_json not_text : VaultError

abbrev pub Outcome : Type 0 → Type 0
Outcome = Fallible VaultError

-- `encrypt` and `decrypt` are runs of openssl with a key, the former with the salt it draws; `none`
-- is an exit status other than 0. `kdf` is PBKDF2 of a secret and a salt.
pub record Tools : Type 0 where
  pub kdf : Text → Text → Text
  pub encrypt : Text → Text → Text → Option Text
  pub decrypt : Text → Text → Option Text
  pub mac : Text → Text → Text
  pub b64 : Text → Text
  pub unb64 : Text → Text
  pub unhex : Text → Text
  pub dumps : Secrets → Text
  pub loads : Text → Option Secrets

-- What vault.py relies on: openssl works and undoes itself and puts at least its header of 16 bytes
-- in front; an HMAC-SHA256 has 32 bytes; base64 and json read back what they write.
pub record Works (t : Tools) : Type 0 where
  pub decrypts :
      (key salt p : Text)
      → (c : Text) × (t.encrypt key salt p ≡ some c) × (t.decrypt key c ≡ some p) × (16 ≤ length c)
  pub tag_length : (key c : Text) → length (t.mac key c) ≡ 32
  pub unb64-b64 : (s : Text) → t.unb64 (t.b64 s) ≡ s
  pub loads-dumps : (d : Secrets) → t.loads (t.dumps d) ≡ some d

-- `_ident_string`
abbrev pub ident_string : Ident → Text
ident_string i = join b'|' (i.mac ∷ i.serial ∷ i.product ∷ [])

is_hex : ℕ → Bool
is_hex c = (leb b'0' c && leb c b'9') || (leb b'a' c && leb c b'f')

hex_only : Text → Text
unfolding is_hex
hex_only [] = []
hex_only (c ∷ s) = if is_hex c then c ∷ hex_only s else hex_only s

-- `_norm_phrase`
unfoldable pub norm_phrase : Text → Text
unfolding hex_only
norm_phrase p = hex_only (lower p)

-- `_read` of the file; the version is a number.
unfoldable pub read : Option Env → Outcome Env
read none = err no_file
read (some env) = if env.version == 1 then ok env else err unknown_version

-- A `Locked` of the slot is given its own message.
unfoldable pub relock : {A : Type 0} → VaultError → Outcome A → Outcome A
relock why (ok a) = ok a
relock why (err integrity) = err why
relock why (err e) = err e

module _ (t : Tools) where
  abbrev or_failed : Option Text → Outcome Text
  or_failed none = err openssl_failed
  or_failed (some s) = ok s

  -- `_seal`; `salt` is what openssl draws
  unfoldable pub seal : Text → Text → Text → Outcome Text
  seal keys salt p = do
    ct ← or_failed (t.encrypt (take 32 keys) salt p)
    ok (ct ++ t.mac (drop 32 keys) ct)

  -- `_open`
  unfoldable pub open_blob : Text → Text → Outcome Text
  open_blob keys blob =
      if ltb (length blob) 48
      then err too_short
      else (let n = length blob - 32 in
          let ct = take n blob in
          if text_eq (t.mac (drop 32 keys) ct) (drop n blob)
          then or_failed (t.decrypt (take 32 keys) ct)
          else err integrity)

  -- `_chassis_keys`
  abbrev pub chassis_keys : Env → Ident → Text
  chassis_keys env i = t.kdf (env.seed ++ (b'|' ∷ ident_string i)) (t.unhex env.chassis.salt)

  -- `_phrase_keys`
  abbrev pub phrase_keys : Env → Text → Text
  phrase_keys env phrase = t.kdf (norm_phrase phrase) (t.unhex env.recovery.salt)

  abbrev pub data_keys : Text → Text
  data_keys k = t.kdf k (codes "pipeos-vault-data")

  -- `_unwrap`
  unfoldable pub unwrap : Ident → Option Text → Env → Outcome Text
  unwrap i none env =
      relock another_chassis (open_blob (chassis_keys env i) (t.unb64 env.chassis.wrapped))
  unwrap i (some phrase) env =
      relock not_the_phrase (open_blob (phrase_keys env phrase) (t.unb64 env.recovery.wrapped))

  abbrev or_not_json : Option Secrets → Outcome Secrets
  or_not_json none = err not_json
  or_not_json (some d) = ok d

  -- `_load`
  unfoldable pub load : Ident → Option Text → Option Env → Outcome (Env × Text × Secrets)
  unfolding unwrap
  load i phrase file = do
    env ← read file
    k ← unwrap i phrase env
    text ← open_blob (data_keys k) (t.unb64 env.payload)
    d ← or_not_json (t.loads text)
    ok (env, k, d)

  -- `_store`: the file that it leaves
  unfoldable pub store : Text → ℕ → Env → Text → Secrets → Outcome (Option Env)
  unfolding seal
  store salt now env k d = do
    blob ← seal (data_keys k) salt (t.dumps d)
    ok (some (record env { payload = t.b64 blob; updated = now }))
