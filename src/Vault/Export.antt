-- ===== src/Vault/Export.antt =====
-- vault.py, `export`: the files that the services read, from the secrets. A text that UTF-8 cannot
-- spell has no model here.
pub mod Written
pub mod Directory
use pipe_os.Prelude.{
  ℕ, Bool, true, false, ◌&&◌, ◌||◌, not, Option, none, some, List, [], ◌∷◌, ◌++◌, drop, leb, ◌==◌,
  if◌then◌else◌, Text, text_eq, codes,
}
use pipe_os.Prelude.Fallible.{Fallible, ok, err, ◌>>=◌}
use pipe_os.Prelude.Dict.{Dict, get, set, del, has}
use pipe_os.Prelude.Ascii.{upper, starts_with, has_char, sorted_texts}
use pipe_os.Vault.{Secret, Secrets, Env, Ident, not_text, unquotable, Outcome, Tools, load}

-- A file: the lines that are put together, or raw bytes.
pub data Content : Type 0 where
  lines : List Text → Content
  bytes : Text → Content

-- `_sq`
unfoldable pub quoted : Text → Outcome Text
quoted v =
    if has_char b'\'' v || has_char 10 v || has_char 13 v || has_char 0 v
    then err unquotable
    else ok (b'\'' ∷ (v ++ (b'\'' ∷ [])))

-- `_sq` of a secret: bytes are no text.
unfoldable pub quoted_value : Secret → Outcome Text
unfolding quoted
quoted_value s = if s.raw then err not_text else quoted s.v

-- `re.sub(r"[^A-Z0-9_]", "_", s)`
unfoldable pub env_name : Text → Text
env_name [] = []
env_name (c ∷ s) =
    (if (leb b'A' c && leb c b'Z') || (leb b'0' c && leb c b'9') || c == b'_' then c else b'_')
    ∷ env_name s

unfoldable pub is_file_char : ℕ → Bool
is_file_char c =
    (leb b'A' c && leb c b'Z')
    || (leb b'a' c && leb c b'z')
    || (leb b'0' c && leb c b'9')
    || c == b'_'
    || c == b'.'
    || c == b'-'

-- `re.sub(r"[^A-Za-z0-9_.-]", "_", name)`
unfoldable pub file_name : Text → Text
unfolding is_file_char
file_name [] = []
file_name (c ∷ s) = (if is_file_char c then c else b'_') ∷ file_name s

-- `claude_env_line`
unfoldable pub claude_env_line : Text → Text
claude_env_line token =
    (if starts_with (codes "sk-ant-api") token
      then codes "ANTHROPIC_API_KEY"
      else codes "CLAUDE_CODE_OAUTH_TOKEN")
    ++ (b'=' ∷ (token ++ (10 ∷ [])))

-- `env_file(fname).append(line)`
unfoldable pub append_line : Text → Text → Dict Content → Outcome (Dict Content)
unfolding get
append_line fname line files = elim (get fname files) [
  | none ↦ ok (set fname (lines (line ∷ [])) files)
  | some (lines ls) ↦ ok (set fname (lines (ls ++ line ∷ [])) files)
  | some (bytes b) ↦ err not_text
]

-- `NAME='…'`, with its line end
unfoldable pub assign : Text → Text → Text
assign name value = name ++ (b'=' ∷ (value ++ (10 ∷ [])))

module _ (t : Tools) where
  -- One round of the first loop.
  unfoldable pub export_one : Text → Secret → Dict Content → Outcome (Dict Content)
  unfolding quoted_value append_line
  export_one name s files =
      if text_eq name (codes "claude_token")
      then (if s.raw
          then err not_text
          else ok (set (codes "claude.env") (lines (claude_env_line s.v ∷ [])) files))
      else if text_eq name (codes "assistant_pass")
      then (do
        q ← quoted_value s
        append_line (codes "assistant.env") (assign (codes "ASSISTANT_PASS") q) files)
      else if starts_with (codes "stream_key_") name
      then (do
        q ← quoted_value s
        append_line (codes "stream.env")
            (assign (codes "STREAM_T" ++ (drop 11 name ++ codes "_KEY")) q) files)
      else if s.raw && not (starts_with (codes "jobs.") name)
      then ok (set (file_name name) (bytes (t.unb64 s.v)) files)
      else if text_eq name (codes "nas_passdb")
      then ok (set (codes "nas/passdb.tdb") (lines (s.v ∷ [])) files)
      else if starts_with (codes "jobs.") name
      then (do
        q ← quoted_value s
        append_line (codes "jobs.env") (assign (env_name (upper (drop 5 name))) q) files)
      else (do
        q ← quoted_value s
        append_line (codes "custom.env") (assign (env_name (upper name)) q) files)

  -- The first loop.
  unfoldable pub files_of : Secrets → Dict Content → Outcome (Dict Content)
  unfolding export_one
  files_of [] files = ok files
  files_of ((name, s) ∷ d) files = do files' ← export_one name s files; files_of d files'

-- The second loop: the directory afterwards.
unfoldable pub write_files : Dict Content → Dict Content → Dict Content
write_files [] dir = dir
write_files ((fname, c) ∷ files) dir = write_files files (set fname c dir)

abbrev pub known : List Text
known =
    codes "claude.env"
    ∷ codes "assistant.env"
    ∷ codes "stream.env"
    ∷ codes "nas/passdb.tdb"
    ∷ codes "jobs.env"
    ∷ codes "custom.env"
    ∷ []

-- The last loop: the known files that were not written are removed.
unfoldable pub remove_files : List Text → Dict Content → Dict Content → Dict Content
unfolding has
remove_files [] files dir = dir
remove_files (fname ∷ names) files dir =
    remove_files names files (if has fname files then dir else del fname dir)

names_of : Dict Content → List Text
names_of [] = []
names_of ((fname, c) ∷ files) = fname ∷ names_of files

module _ (t : Tools) where
  -- `export`: what it returns, and the directory afterwards
  unfoldable pub export : Ident → Option Env → Dict Content → Outcome (List Text × Dict Content)
  unfolding load files_of write_files remove_files names_of
  export i file dir = do
    (env, k, d) ← load t i none file
    files ← files_of t d []
    ok (sorted_texts (names_of files), remove_files known files (write_files files dir))
