-- ===== src/Vault/Refinement.antt =====
-- vault.py as a dict of secrets: what it is for a file to hold a dict.
pub mod Steps
pub mod Kept
use pipe_os.Prelude.{
  ℕ, suc, ◌+◌, ◌-◌, ◌≤◌, ◌<◌, ◌≡◌, refl, sym, ap, ◌∙◌, Bool, true, false, not, ◌&&◌, inl, inr,
  Option, none, some, List, [], ◌∷◌, ◌++◌, ltb, ◌==◌, if◌then◌else◌, length, take, drop,
  length-append, take-append, drop-append, Text, text_eq, text_eq_self, arith,
}
use pipe_os.Prelude.Fallible.{Fallible, ok, err, ◌>>=◌}
use pipe_os.Vault.{
  Secret, Secrets, Slot, Env, Ident, Outcome, Tools, Works, norm_phrase, read, relock, seal,
  open_blob, chassis_keys, phrase_keys, data_keys, unwrap, load, store,
}

module _ (t : Tools) (w : Works t) where
  -- What `_seal` seals, `_open` opens with the same keys.
  pub open_blob-seal :
      (keys salt p : Text)
      → (blob : Text) × (seal t keys salt p ≡ ok blob) × (open_blob t keys blob ≡ ok p)
  unfolding seal open_blob
  open_blob-seal keys salt p =
      let (c, runs, undone, long) = w.decrypts (take 32 keys) salt p in
      let tag = t.mac (drop 32 keys) c in
      (c ++ tag, rw runs refl, opens c tag refl (w.tag_length (drop 32 keys) c) long undone)
    where
      opens :
          (c tag : Text)
          → t.mac (drop 32 keys) c ≡ tag
          → length tag ≡ 32
          → 16 ≤ length c
          → t.decrypt (take 32 keys) c ≡ some p
          → open_blob t keys (c ++ tag) ≡ ok p
      opens c tag tagged tag_len long undone =
          let len : length (c ++ tag) ≡ length c + 32 =
            ground (arith, length-append c tag, tag_len) in
          let short : ltb (length (c ++ tag)) 48 ≡ false = ground (arith, len, long) in
          let cut : length (c ++ tag) - 32 ≡ length c = ground (arith, len) in
          rw (short, cut, take-append c tag, drop-append c tag, tagged, text_eq_self tag, undone)
            refl

  -- The vault in `file` opens on the hardware `i` and with a phrase of the digits `digits`, and holds
  -- the secrets `d`.
  pub record Holds (i : Ident) (digits : Text) (d : Secrets) (file : Option Env) : Type 0 where
    pub env : Env
    pub k : Text
    pub stored : file ≡ some env
    pub version : env.version ≡ 1
    pub by_chassis : open_blob t (chassis_keys t env i) (t.unb64 env.chassis.wrapped) ≡ ok k
    pub by_phrase :
        open_blob t (t.kdf digits (t.unhex env.recovery.salt)) (t.unb64 env.recovery.wrapped) ≡ ok k
    pub sealed : open_blob t (data_keys t k) (t.unb64 env.payload) ≡ ok (t.dumps d)

  pub load-Holds :
      {i : Ident} {digits : Text} {d : Secrets} {file : Option Env} (h : Holds i digits d file)
      → load t i none file ≡ ok (h.env, h.k, d)
  unfolding load unwrap read relock
  load-Holds {d} h = rw (h.stored, h.version, h.by_chassis, h.sealed, w.loads-dumps d) refl

  pub load-phrase :
      {i : Ident} {d : Secrets} {file : Option Env} (j : Ident) (typed : Text)
      (h : Holds i (norm_phrase typed) d file)
      → load t j (some typed) file ≡ ok (h.env, h.k, d)
  unfolding load unwrap read relock
  load-phrase {d} j typed h = rw (h.stored, h.version, h.by_phrase, h.sealed, w.loads-dumps d) refl

  -- An envelope whose two slots give the key `k`.
  pub record Opens (i : Ident) (digits k : Text) (env : Env) : Type 0 where
    pub version : env.version ≡ 1
    pub by_chassis : open_blob t (chassis_keys t env i) (t.unb64 env.chassis.wrapped) ≡ ok k
    pub by_phrase :
        open_blob t (t.kdf digits (t.unhex env.recovery.salt)) (t.unb64 env.recovery.wrapped) ≡ ok k

  pub Holds-Opens :
      {i : Ident} {digits : Text} {d : Secrets} {file : Option Env} (h : Holds i digits d file)
      → Opens i digits h.k h.env
  Holds-Opens h = record { version = h.version; by_chassis = h.by_chassis; by_phrase = h.by_phrase }

  -- What is stored into an envelope that opens is what it holds.
  pub store-Holds :
      {i : Ident} {digits k : Text} {env : Env} (salt : Text) (now : ℕ) (d : Secrets)
      → Opens i digits k env
      → (file : Option Env) × (store t salt now env k d ≡ ok file) × Holds i digits d file
  unfolding store
  store-Holds {i} {digits} {k} {env} salt now d o =
      let (blob, sealed, opened) = open_blob-seal (data_keys t k) salt (t.dumps d) in
      let env' : Env = record env { payload = t.b64 blob; updated = now } in
      (
        some env',
        rw sealed refl,
        record {
          env = env';
          k = k;
          stored = refl;
          version = o.version;
          by_chassis = o.by_chassis;
          by_phrase = o.by_phrase;
          sealed = rw (w.unb64-b64 blob) opened;
        },
      )
