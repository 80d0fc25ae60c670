-- ===== src/Vault/Export/Written.antt =====
-- What `export` of vault.py leaves in the directory of the secrets.
use pipe_os.Prelude.{
  ◌≡◌, refl, ap, Bool, true, false, not, ◌&&◌, inl, inr, Bool-cases, All, Option, none, some, [],
  ◌∷◌, ◌++◌, if◌then◌else◌, Text, text_eq, text_eq_iff, codes, arith,
}
use pipe_os.Prelude.Fallible.{ok, err, ◌>>=◌, bind-eq-ok, ok-injective}
use pipe_os.Prelude.Dict.{Dict, get, set, has, has-set}
use pipe_os.Prelude.Ascii.{has_char, starts_with}
use pipe_os.Vault.{Secret, Secrets, VaultError, not_text, Outcome, Tools}
use pipe_os.Vault.Export.{
  is_file_char, Content, lines, bytes, quoted_value, file_name, append_line, export_one, files_of,
}

-- A file's name never has a slash.
file_name-no_slash : (name : Text) → has_char b'/' (file_name name) ≡ false
unfolding file_name has_char is_file_char
file_name-no_slash [] = refl
file_name-no_slash (c ∷ s) = ground (arith, file_name-no_slash s)

abbrev pub passdb : Text
passdb = codes "nas/passdb.tdb"

slash : has_char b'/' passdb ≡ true
unfolding has_char
slash = refl

not_passdb : (name : Text) → text_eq (file_name name) passdb ≡ false
not_passdb name = elim (Bool-cases (text_eq (file_name name) passdb)) [
  | inr differ ↦ differ
  | inl same ↦
      (let q : file_name name ≡ passdb = (text_eq_iff (file_name name) passdb).0 same in
        absurd (ground (arith, ap (has_char b'/') q, file_name-no_slash name, slash)))
]

-- A round of the loop raises, or sets one file; the database of the users only for a text.
pub data Sets (name : Text) (s : Secret) (files : Dict Content)
    : Outcome (Dict Content) → Type 0 where
  raises : (e : VaultError) → Sets name s files (err e)
  sets :
      (fname : Text) (c : Content)
      → (text_eq fname passdb ≡ true → (text_eq name (codes "nas_passdb") ≡ true) × (s.raw ≡ false))
      → Sets name s files (ok (set fname c files))

if-Sets :
    {name : Text} {s : Secret} {files : Dict Content} (c : Bool) (x y : Outcome (Dict Content))
    → (c ≡ true → Sets name s files x)
    → (c ≡ false → Sets name s files y)
    → Sets name s files (if c then x else y)
if-Sets true x y h k = h refl
if-Sets false x y h k = k refl

append_line-Sets :
    {name : Text} {s : Secret} (files : Dict Content) (fname line : Text)
    → text_eq fname passdb ≡ false
    → Sets name s files (append_line fname line files)
unfolding append_line
append_line-Sets {name} {s} files fname line h = by_entry (get fname files)
  where
    other_file : (c : Content) → Sets name s files (ok (set fname c files))
    other_file c = sets fname c (λ same. absurd (ground (arith, same, h)))

    by_entry :
        (o : Option Content)
        → Sets name s files (elim o [
          | none ↦ ok (set fname (lines (line ∷ [])) files)
          | some (lines ls) ↦ ok (set fname (lines (ls ++ line ∷ [])) files)
          | some (bytes b) ↦ err not_text
        ])
    by_entry none = other_file _
    by_entry (some (lines ls)) = other_file _
    by_entry (some (bytes b)) = raises not_text

line-Sets :
    {name : Text} {s : Secret} {files : Dict Content} (m : Outcome Text) (fname : Text)
    (line : Text → Text)
    → text_eq fname passdb ≡ false
    → Sets name s files (m >>= λ q. append_line fname (line q) files)
line-Sets (err e) fname line h = raises e
line-Sets {files = files} (ok q) fname line h = append_line-Sets files fname (line q) h

other_Sets :
    {name : Text} {s : Secret} {files : Dict Content} (fname : Text) (c : Content)
    → text_eq fname passdb ≡ false
    → Sets name s files (ok (set fname c files))
other_Sets fname c h = sets fname c (λ same. absurd (ground (arith, same, h)))

nas_is_no_job :
    (name : Text)
    → text_eq name (codes "nas_passdb") ≡ true
    → starts_with (codes "jobs.") name ≡ false
unfolding starts_with
nas_is_no_job name e = rw ((text_eq_iff name (codes "nas_passdb")).0 e) refl

module _ (t : Tools) where
  pub export_one-Sets :
      (name : Text) (s : Secret) (files : Dict Content)
      → Sets name s files (export_one t name s files)
  unfolding export_one
  export_one-Sets name s files =
      if-Sets (text_eq name (codes "claude_token")) _ _
        (λ _.
          if-Sets s.raw _ _ (λ _. raises not_text) (λ _. other_Sets (codes "claude.env") _ refl))
        (λ _.
          if-Sets (text_eq name (codes "assistant_pass")) _ _
            (λ _. line-Sets (quoted_value s) _ _ refl)
            (λ _.
              if-Sets (starts_with (codes "stream_key_") name) _ _
                (λ _. line-Sets (quoted_value s) _ _ refl)
                (λ _.
                  if-Sets (s.raw && not (starts_with (codes "jobs.") name)) _ _
                    (λ _. other_Sets (file_name name) _ (not_passdb name))
                    (λ mixed.
                      if-Sets (text_eq name (codes "nas_passdb")) _ _
                        (λ nas.
                          sets passdb _ (λ _. (nas, ground (arith, mixed, nas_is_no_job name nas))))
                        (λ _.
                          if-Sets (starts_with (codes "jobs.") name) _ _
                            (λ _. line-Sets (quoted_value s) _ _ refl)
                            (λ _. line-Sets (quoted_value s) _ _ refl))))))

  pub files_of-no_passdb :
      (d : Secrets) (files files' : Dict Content)
      → All (λ e. text_eq e.0 (codes "nas_passdb") ≡ true → e.1.raw ≡ true) d
      → has passdb files ≡ false
      → files_of t d files ≡ ok files'
      → has passdb files' ≡ false
  unfolding files_of
  files_of-no_passdb [] files files' raw h e = rw (← ok-injective e) h
  files_of-no_passdb ((name, s) ∷ d) files files' raw h e =
      let (next, e1, e2) = bind-eq-ok (export_one t name s files) (files_of t d) e in
      files_of-no_passdb d next files' raw.1 (round _ e1 (export_one-Sets name s files)) e2
    where
      round :
          {next : Dict Content} (m : Outcome (Dict Content))
          → m ≡ ok next
          → Sets name s files m
          → has passdb next ≡ false
      round m q (raises x) = absurd (ground (arith, q))
      round m q (sets fname c only) =
          rw (← ok-injective q) (ground (arith, has-set passdb fname c files, h, only, raw.0))
