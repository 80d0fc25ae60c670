-- ===== src/Tests/Ingest.antt =====
-- ledger.py's ingest on small transcripts, each line of which is the id of a message, and its theorems
-- at concrete inputs.
use pipe_os.Prelude.{
  ℕ, ◌≡◌, refl, ◌≤◌, ◌*◌, true, false, none, some, [], ◌∷◌, ◌++◌, length, take, drop, Text, codes,
  arith,
}
use pipe_os.Prelude.Ascii.{lower, starts_with, text_in}
use pipe_os.Prelude.Dict.{Dict, get}
use pipe_os.Ledger.Rates.{undated, rate_for, best_prefix}
use pipe_os.Ledger.Rates.Longest.{Has, NoLonger, rate_for-NoLonger}
use pipe_os.Ledger.Cursor.{seen_ring, Entry, last_of}
use pipe_os.Ledger.Rows.{Line}
use pipe_os.Ledger.Ingest.{
  cut, Reading, read_lines, read_transcript, start_of, read_from, message_of, is_blank, counts,
  consumed,
}
use pipe_os.Ledger.Ingest.Once.{Fresh, Distinct, read_transcript-Fresh}
use pipe_os.Ledger.Ingest.Torn.{whole}
use pipe_os.Ledger.Ingest.Tail.{read_transcript-again, read_transcript-append}

abbrev message : Text → Line
message raw = record {
  kind = codes "assistant";
  id = raw;
  used = true;
  timestamp = codes "2026-10-01T00:00:00Z";
  session = [];
  cwd = codes "/data/pipebox";
  model = codes "claude-opus-4-5-20251101";
  tokens_in = 3;
  tokens_out = 4;
  cache_read = 0;
  created = none;
  created_total = 5;
  sidechain = false;
}

abbrev rates : Dict ℕ
rates = (codes "claude", 1) ∷ (codes "claude-opus-4", 5) ∷ (codes "claude-opus", 15) ∷ []

abbrev reading : Reading
reading = record {
  Rate = ℕ;
  Cost = ℕ;
  loads = λ raw. some (message raw);
  now = codes "2026-10-02T00:00:00Z";
  month_of = take 7;
  rates = rates;
  price = λ rate row. rate * row.tokens_in;
}

abbrev path : Text
path = codes "/data/claude/projects/p/t.jsonl"

-- Two lines and the beginning of a third.
abbrev torn : Text
torn = codes "m1" ++ (b'\n' ∷ codes "m2" ++ (b'\n' ∷ codes "m"))

abbrev rest : Text
rest = codes "3" ++ (b'\n' ∷ codes "m1" ++ (b'\n' ∷ []))

abbrev seen_m2 : Entry
seen_m2 = record { ino = some 7; off = 0; seen = codes "m2" ∷ [] }

read_transcript-Fresh_example :
    Fresh (codes "m2" ∷ []) (read_transcript reading (whole path 8 (torn ++ rest)) seen_m2).1
    × Distinct (read_transcript reading (whole path 8 (torn ++ rest)) seen_m2).1
read_transcript-Fresh_example = read_transcript-Fresh reading (whole path 8 (torn ++ rest)) seen_m2

-- Of the four lines of a rewritten transcript two are new.
rewritten :
    (read_transcript reading (whole path 8 (torn ++ rest)) seen_m2).1
    ≡ message (codes "m1") ∷ message (codes "m3") ∷ []
unfolding read_transcript start_of read_from read_lines cut message_of is_blank counts text_in
rewritten = refl

abbrev after_torn : Entry
after_torn = record { ino = some 7; off = 6; seen = codes "m2" ∷ codes "m1" ∷ [] }

torn_read : (read_transcript reading (whole path 7 torn) seen_m2).0 ≡ some after_torn
unfolding read_transcript start_of read_from consumed last_of cut read_lines message_of is_blank
    counts text_in
torn_read = refl

read_transcript-again_example : (read_transcript reading (whole path 7 torn) after_torn).1 ≡ []
read_transcript-again_example =
    read_transcript-again reading path 7 torn seen_m2 after_torn torn_read

-- A transcript that no pass has seen before.
abbrev unseen : Entry
unseen = record { ino = none; off = 0; seen = [] }

abbrev first_entry : Entry
first_entry = record { ino = some 7; off = 6; seen = codes "m1" ∷ codes "m2" ∷ [] }

first_read : (read_transcript reading (whole path 7 torn) unseen).0 ≡ some first_entry
unfolding read_transcript start_of read_from consumed last_of cut read_lines message_of is_blank
    counts text_in
first_read = refl

torn_few :
    length
      (read_lines reading
        (cut (drop (start_of reading (whole path 7 torn) unseen) torn)).0
        unseen.seen).0
    ≤ seen_ring
unfolding start_of read_lines cut message_of is_blank counts text_in
torn_few = omega arith

read_transcript-append_example : read_transcript reading (whole path 7 (torn ++ rest)) unseen ≡ (
  (read_transcript reading (whole path 7 (torn ++ rest)) first_entry).0,
  (read_transcript reading (whole path 7 torn) unseen).1
      ++ (read_transcript reading (whole path 7 (torn ++ rest)) first_entry).1,
)
read_transcript-append_example =
    read_transcript-append reading path 7 torn rest unseen first_entry (omega arith) torn_few
      first_read

abbrev opus : Text
opus = codes "Claude-Opus-4-5-20251101"

opus_named : get (lower opus) rates ≡ none
unfolding get lower
opus_named = refl

opus_dated : get (undated (lower opus)) rates ≡ none
unfolding get undated lower starts_with
opus_dated = refl

opus_rate : rate_for rates opus ≡ some 5
unfolding rate_for get lower undated starts_with best_prefix
opus_rate = refl

rate_for-NoLonger_example :
    (b : Text) × Has (b, 5) rates
    × (starts_with b (undated (lower opus)) ≡ true)
    × NoLonger (undated (lower opus)) b rates
rate_for-NoLonger_example = rate_for-NoLonger rates opus 5 opus_named opus_dated opus_rate
