-- ===== src/Ledger/Ingest.antt =====
-- ledger.py, `ingest`: the transcripts' lines become rows of the month's file, each message once, and
-- the cursor says how far each transcript has been read. The stamp `.last-ingest` is left out.
pub mod Lines
pub mod Once
pub mod Torn
pub mod Tail
use pipe_os.Prelude.{
  ℕ, ◌+◌, ◌-◌, Bool, true, false, ◌&&◌, ◌||◌, not, Option, none, some, List, [], ◌∷◌, ◌++◌, ◌==◌,
  ltb, leb, if◌then◌else◌, length, take, drop, Text, text_eq, is_empty, codes, split, join,
  strip_right,
}
use pipe_os.Prelude.Dict.{Dict, get, set}
use pipe_os.Prelude.Ascii.{strip_space, starts_with, text_in, sorted_texts}
use pipe_os.Ledger.Rates.{rate_for}
use pipe_os.Ledger.Cursor.{seen_ring, Entry, last_of, key_of, load_cursor}
use pipe_os.Ledger.Rows.{Line, Actor, Row, Maps, actor_for, cache_w5m_of, cache_w1h_of}

-- KEEP_MONTHS
abbrev pub keep_months : ℕ
keep_months = 13

-- A transcript: its inode and size by `stat`, and what is read of it then, `none` where it cannot be
-- opened.
pub record Transcript : Type 0 where
  pub path : Text
  pub ino : ℕ
  pub size : ℕ
  pub bytes : Option Text

-- `not raw.strip()` of bytes
unfoldable pub is_blank : Text → Bool
is_blank [] = true
is_blank (c ∷ s) = ((leb 9 c && leb c 13) || c == 32) && is_blank s

-- One more character in front of the first line.
abbrev pub grown : ℕ → List Text → Text → List Text × Text
grown c [] tail = ([], c ∷ tail)
grown c (l ∷ ls) tail = ((c ∷ l) ∷ ls, tail)

-- `data.split(b"\n")`, the last element apart: the lines, and the torn tail
unfoldable pub cut : Text → List Text × Text
cut [] = ([], [])
cut (c ∷ s) = let (ls, tail) = cut s in if c == b'\n' then ([] ∷ ls, tail) else grown c ls tail

-- `sum(len(l) + 1 for l in lines)`
unfoldable pub consumed : List Text → ℕ
consumed [] = 0
consumed (l ∷ ls) = length l + 1 + consumed ls

-- `loads` is `json.loads` of a line, `none` for the ValueError; `now` is the time of the ingest as a
-- timestamp, `month_of` the month of a timestamp, the present one where it does not parse; `price` is
-- the cost that a rate makes of a row.
pub record Reading : Type 1 where
  pub Rate : Type 0
  pub Cost : Type 0
  pub loads : Text → Option Line
  pub now : Text
  pub month_of : Text → Text
  pub rates : Dict Rate
  pub price : Rate → Row → Cost

module _ (r : Reading) where
  -- The row of a message.
  unfoldable pub row_of : Maps → Line → Row
  row_of m l = record {
    ts = if is_empty l.timestamp then r.now else l.timestamp;
    sid = l.session;
    id = l.id;
    actor = actor_for m l.session l.cwd;
    model = l.model;
    tokens_in = l.tokens_in;
    tokens_out = l.tokens_out;
    cache_read = l.cache_read;
    cache_w5m = cache_w5m_of l;
    cache_w1h = cache_w1h_of l;
    cwd = l.cwd;
    sidechain = l.sidechain;
  }

  -- `type`, `usage` and `id` of a line that counts, `mid in seen` apart
  unfoldable pub counts : Line → Bool
  counts l = text_eq l.kind (codes "assistant") && l.used && not (is_empty l.id)

  -- The message of a line that is not passed over.
  unfoldable pub message_of : List Text → Text → Option Line
  message_of seen raw = if is_blank raw then none else elim (r.loads raw) [
    | none ↦ none
    | some l ↦ if counts l && not (text_in l.id seen) then some l else none
  ]

  -- The loop over the lines: the ids seen, and the messages.
  unfoldable pub read_lines : List Text → List Text → List Text × List Line
  read_lines [] seen = (seen, [])
  read_lines (raw ∷ raws) seen = elim (message_of seen raw) [
    | none ↦ read_lines raws seen
    | some l ↦ let (seen', ls) = read_lines raws (seen ++ (l.id ∷ [])) in (seen', l ∷ ls)
  ]

  -- Where the reading of a transcript starts.
  unfoldable pub start_of : Transcript → Entry → ℕ
  start_of f e = elim e.ino [
    | none ↦ 0
    | some ino ↦ if not (ino == f.ino) || ltb f.size e.off then 0 else e.off
  ]

  -- What is read from there on.
  unfoldable pub read_from : Transcript → ℕ → List Text → Text → Entry × List Line
  read_from f off seen s =
      let (raws, tail) = cut s in
      let (seen', ls) = read_lines raws seen in
      (record { ino = some f.ino; off = off + consumed raws; seen = last_of seen_ring seen' }, ls)

  -- One transcript: its entry afterwards, and the messages; an entry stays where it cannot be opened.
  unfoldable pub read_transcript : Transcript → Entry → Option Entry × List Line
  read_transcript f e =
      if f.size == start_of f e
      then (
        some (record { ino = some f.ino; off = start_of f e; seen = last_of seen_ring e.seen }),
        [],
      )
      else elim f.bytes [
        | none ↦ (none, [])
        | some s ↦
            let (e', ls) = read_from f (start_of f e) e.seen (drop (start_of f e) s) in
            (some e', ls)
      ]

  -- `cursor.get(key, {})`
  abbrev pub entry_of : Option Entry → Entry
  entry_of none = record { ino = none; off = 0; seen = [] }
  entry_of (some e) = e

  -- `cursor[key] = …`
  abbrev pub store_entry : Text → Option Entry → Dict Entry → Dict Entry
  store_entry key none cursor = cursor
  store_entry key (some e) cursor = set key e cursor

  -- The loop over the transcripts, in the order of their paths.
  unfoldable pub read_all : List Transcript → Dict Entry → Dict Entry × List Line
  read_all [] cursor = (cursor, [])
  read_all (f ∷ fs) cursor =
      let (e, ls) = read_transcript f (entry_of (get (key_of f.path) cursor)) in
      let (cursor', more) = read_all fs (store_entry (key_of f.path) e cursor) in
      (cursor', ls ++ more)

  -- A row with its cost, `none` where no rate fits.
  abbrev pub Priced : Type 0
  Priced = Row × Option r.Cost

  unfoldable pub priced : Row → Priced
  unfolding rate_for
  priced w = (w, elim (rate_for r.rates w.model) [ none ↦ none | some q ↦ some (r.price q w) ])

  -- The rows of the month's file, one line more.
  unfoldable pub append_row : Priced → Dict (List Priced) → Dict (List Priced)
  append_row p months =
      let month = r.month_of p.0.ts in
      set month (elim (get month months) [ none ↦ p ∷ [] | some ps ↦ ps ++ (p ∷ []) ]) months

  unfoldable pub append_rows : Maps → List Line → Dict (List Priced) → Dict (List Priced)
  unfolding append_row row_of priced
  append_rows m [] months = months
  append_rows m (l ∷ ls) months = append_rows m ls (append_row (priced (row_of m l)) months)

  names : Dict (List Priced) → List Text
  names [] = []
  names ((month, ps) ∷ d) = month ∷ names d

  keep_named : List Text → Dict (List Priced) → Dict (List Priced)
  keep_named kept [] = []
  keep_named kept ((month, ps) ∷ d) =
      let rest = keep_named kept d in if text_in month kept then (month, ps) ∷ rest else rest

  -- `_prune`: the last thirteen files by name stay
  unfoldable pub prune : Dict (List Priced) → Dict (List Priced)
  unfolding names keep_named sorted_texts last_of text_in
  prune months = keep_named (last_of keep_months (sorted_texts (names months))) months

  -- `_ingest_locked`: the cursor, the files of the months, and the number of new rows
  unfoldable pub ingest :
      Maps → List Transcript → Dict Entry → Dict (List Priced) → Dict Entry × Dict (List Priced) × ℕ
  ingest m fs raw months =
      let (cursor, ls) = read_all fs (load_cursor [] raw) in
      (cursor, prune (append_rows m ls months), length ls)
