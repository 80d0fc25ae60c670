-- ===== src/Ledger/Cursor.antt =====
-- ledger.py, the cursor: what cursor.json holds for each transcript, and how `_load_cursor` reads it.
use pipe_os.Prelude.{
  ℕ, ◌-◌, Option, none, some, List, [], ◌∷◌, ◌++◌, leb, if◌then◌else◌, length, drop, Text, split,
  join, strip_right,
}
use pipe_os.Prelude.Dict.{Dict, get, set}

-- SEEN_RING
abbrev pub seen_ring : ℕ
seen_ring = 256

-- An entry of cursor.json: the inode, how far the transcript has been read, and the last ids.
pub record Entry : Type 0 where
  pub ino : Option ℕ
  pub off : ℕ
  pub seen : List Text

-- The last `n` of a list: `xs[-n:]`
unfoldable pub last_of : {A : Type 0} → ℕ → List A → List A
last_of n xs = drop (length xs - n) xs

-- `_key`
unfoldable pub key_of : Text → Text
unfolding split join last_of strip_right
key_of path =
    let parts = split b'/' (strip_right b'/' path) in
    if leb 2 (length parts) then join b'/' (last_of 2 parts) else path

-- `_load_cursor` of what cursor.json holds
unfoldable pub load_cursor : Dict Entry → Dict Entry → Dict Entry
unfolding key_of last_of get set
load_cursor cursor [] = cursor
load_cursor cursor ((k, v) ∷ raw) =
    let merged : Entry = elim (get (key_of k) cursor) [
      | none ↦ v
      | some old ↦
          if leb old.off v.off
          then record v { seen = last_of seen_ring (old.seen ++ v.seen) }
          else record old { seen = last_of seen_ring (v.seen ++ old.seen) }
    ] in
    load_cursor (set (key_of k) merged cursor) raw
