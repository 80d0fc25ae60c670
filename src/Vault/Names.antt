-- ===== src/Vault/Names.antt =====
-- vault.py, the names of secrets: `NAME_RE`, `CONSUMER_OF`, `shareable` and `parse_needs`.
pub mod Needs
use pipe_os.Prelude.{
  ℕ, ◌-◌, Bool, true, false, ◌&&◌, ◌||◌, not, Option, none, some, List, [], ◌∷◌, leb, ltb, ◌==◌,
  if◌then◌else◌, length, Text, text_eq, is_empty, codes, split,
}
use pipe_os.Prelude.Dict.{Dict, get}
use pipe_os.Prelude.Ascii.{lower, strip_space, starts_with, text_in, sorted_texts}

unfoldable pub is_name_char : ℕ → Bool
is_name_char c = (leb b'a' c && leb c b'z') || (leb b'0' c && leb c b'9') || c == b'_' || c == b'.'

-- At most `n` further characters, and then the end, or a last line end, as `$` has it.
unfoldable pub name_rest : ℕ → Text → Bool
unfolding is_name_char
name_rest n [] = true
name_rest n (c ∷ s) =
    let rest = name_rest (n - 1) s in
    if is_name_char c then ltb 0 n && rest else c == 10 && is_empty s

-- `NAME_RE.match(name)`
unfoldable pub matches_name : Text → Bool
unfolding name_rest
matches_name [] = false
matches_name (c ∷ s) = leb b'a' c && leb c b'z' && name_rest 63 s

-- `CONSUMER_OF.get(name, "")`
unfoldable pub consumer_of : Text → Text
unfolding get
consumer_of name =
    let stream = codes "stream" in
    let table : Dict Text =
      (codes "claude_token", codes "claude")
      ∷ (codes "assistant_pass", codes "assistant")
      ∷ (codes "nas_passdb", codes "nas")
      ∷ (codes "stream_key_1", stream)
      ∷ (codes "stream_key_2", stream)
      ∷ (codes "stream_key_3", stream)
      ∷ (codes "stream_key_4", stream)
      ∷ [] in
    elim (get name table) [ none ↦ [] | some consumer ↦ consumer ]

-- `shareable`; `is_text` is whether its kind is "text"
unfoldable pub shareable : Text → Bool → Bool
shareable name is_text =
    is_text
    && not (text_eq name (codes "assistant_pass") || text_eq name (codes "nas_passdb"))
    && not (starts_with (codes "stream_key_") name)

-- What may be given for the needs of a job; an entry of a list that is no text is `other`.
pub data Entry : Type 0 where
  text : Text → Entry
  other : Entry

pub data Given : Type 0 where
  nothing unlike : Given
  line : Text → Given
  list : List Entry → Given

-- `value.replace(";", ",")`
unfoldable pub commas : Text → Text
commas [] = []
commas (c ∷ s) = (if c == b';' then b',' else c) ∷ commas s

unfoldable pub texts : List Text → List Entry
texts [] = []
texts (w ∷ ws) = text w ∷ texts ws

-- What is required of one name, after `strip` and `lower`.
unfoldable pub is_need : Text → Bool
unfolding matches_name shareable starts_with
is_need x = starts_with (codes "jobs.") x && ltb 5 (length x) && matches_name x && shareable x true

-- The loop: the names in their order, or `none` where it raises.
unfoldable pub needs_of : List Entry → Option (List Text)
unfolding is_need
needs_of [] = some []
needs_of (other ∷ xs) = none
needs_of (text s ∷ xs) =
    let x = lower (strip_space s) in
    let rest = needs_of xs in
    if is_empty x || text_eq x (codes "none")
    then rest
    else if not (is_need x)
    then none
    else elim rest [ none ↦ none | some ys ↦ some (x ∷ ys) ]

-- `sorted(out)` of the set
unfoldable pub sorted_set : Option (List Text) → Option (List Text)
unfolding sorted_texts
sorted_set none = none
sorted_set (some xs) = some (sorted_texts xs)

-- `parse_needs`; `none` is its ValueError
unfoldable pub parse_needs : Given → Option (List Text)
unfolding needs_of sorted_set commas texts
parse_needs nothing = some []
parse_needs unlike = none
parse_needs (line s) = sorted_set (needs_of (texts (split b',' (commas s))))
parse_needs (list xs) = sorted_set (needs_of xs)
