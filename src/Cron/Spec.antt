-- ===== src/Cron/Spec.antt =====
-- cronspec.py, `Spec`, `parse`, `parse_for_job`, `day_ok` and `matches`.
pub mod Accepted
use pipe_os.Prelude.{
  ℕ, zero, suc, ◌+◌, ◌%◌, Bool, true, false, ◌&&◌, ◌||◌, not, Option, none, some, List, [], ◌∷◌,
  ◌++◌, ltb, leb, ◌==◌, if◌then◌else◌, length, Text, text_eq, is_empty, split, join, codes,
}
use pipe_os.Prelude.Fallible.{Fallible, ok, err, ◌>>=◌}
use pipe_os.Prelude.Sets.{mem, discard}
use pipe_os.Cron.Calendar.{Moment, month_of, day_of_month, weekday}
use pipe_os.Cron.Field.{
  CronError, not_a_string, bad_length, bad_character, not_five_fields, Outcome, Names, field,
}

pub record Spec : Type 0 where
  pub text : Text
  pub minute : List ℕ
  pub hour : List ℕ
  pub day : List ℕ
  pub month : List ℕ
  pub weekday : List ℕ
  pub day_star : Bool
  pub weekday_star : Bool

abbrev pub manual_text : Text
manual_text = codes "manual"

-- `Spec(text)`: no field is set.
abbrev pub bare : Text → Spec
bare text = record {
  text = text;
  minute = [];
  hour = [];
  day = [];
  month = [];
  weekday = [];
  day_star = false;
  weekday_star = false;
}

-- the property `manual`
unfoldable pub is_manual : Spec → Bool
is_manual spec = text_eq spec.text manual_text

abbrev max_len : ℕ
max_len = 64

-- What `str.split()` splits at.
is_space : ℕ → Bool
is_space c =
    (leb 9 c && leb c 13)
    || (leb 28 c && leb c 32)
    || c == 0x85
    || c == 0xa0
    || c == 0x1680
    || (leb 0x2000 c && leb c 0x200a)
    || c == 0x2028
    || c == 0x2029
    || c == 0x202f
    || c == 0x205f
    || c == 0x3000

-- `str.lower()`, up to characters that are refused either way: of those beyond ASCII the Kelvin
-- sign alone becomes a letter of ASCII.
to_lower : ℕ → ℕ
to_lower c = if leb b'A' c && leb c b'Z' then c + 32 else if c == 0x212a then b'k' else c

lower_text : Text → Text
unfolding to_lower
lower_text [] = []
lower_text (c ∷ s) = to_lower c ∷ lower_text s

-- One more character in front of the words; the flag says that a word begins the text behind it.
push_word : Bool → ℕ → List Text → List Text
push_word true c (w ∷ ws) = (c ∷ w) ∷ ws
push_word joined c ws = (c ∷ []) ∷ ws

starts_word : Text → Bool
unfolding is_space
starts_word [] = false
starts_word (c ∷ s) = not (is_space c)

-- `text.split()`
unfoldable pub words : Text → List Text
unfolding is_space push_word starts_word
words [] = []
words (c ∷ s) = let rest = words s in if is_space c then rest else push_word (starts_word s) c rest

-- `" ".join(text.strip().lower().split())`
unfoldable pub normalize : Text → Text
unfolding lower_text words
normalize text = join b' ' (words (lower_text text))

-- `_CHARS`
allowed : ℕ → Bool
allowed c =
    (leb b'0' c && leb c b'9')
    || (leb b'a' c && leb c b'z')
    || c == b'*'
    || c == b','
    || c == b'/'
    || c == b'-'
    || c == b' '
    || c == b'@'

all_allowed : Text → Bool
unfolding allowed
all_allowed [] = true
all_allowed (c ∷ s) = allowed c && all_allowed s

get_or : Text → List (Text × Text) → Text
get_or t [] = t
get_or t ((name, full) ∷ rest) = if text_eq t name then full else get_or t rest

abbrev aliases : List (Text × Text)
aliases =
    (codes "@hourly", codes "0 * * * *")
    ∷ (codes "@daily", codes "0 0 * * *")
    ∷ (codes "@midnight", codes "0 0 * * *")
    ∷ (codes "@weekly", codes "0 0 * * 0")
    ∷ (codes "@monthly", codes "0 0 1 * *")
    ∷ (codes "@yearly", codes "0 0 1 1 *")
    ∷ (codes "@annually", codes "0 0 1 1 *")
    ∷ []

enumerate : ℕ → List Text → Names
enumerate n [] = []
enumerate n (name ∷ rest) = (name, n) ∷ enumerate (suc n) rest

-- `_MONTHS` and `_DAYS`
months : Names
unfolding enumerate split
months = enumerate 1 (split b' ' (codes "jan feb mar apr may jun jul aug sep oct nov dec"))

days : Names
unfolding enumerate split
days = enumerate 0 (split b' ' (codes "sun mon tue wed thu fri sat"))

starts_with_star : Text → Bool
starts_with_star [] = false
starts_with_star (c ∷ s) = c == b'*'

-- Both 0 and 7 are Sunday.
unfoldable pub fold_sunday : List ℕ → List ℕ
fold_sunday vals = if mem 7 vals then 0 ∷ discard 7 vals else vals

-- The loop over `_FIELDS` and what follows it, for an expression `t` of the fields `parts`.
unfoldable pub parse_fields : Text → List Text → Outcome Spec
unfolding months days starts_with_star fold_sunday
parse_fields t (p0 ∷ p1 ∷ p2 ∷ p3 ∷ p4 ∷ []) = do
  minute ← field p0 0 59 []
  hour ← field p1 0 23 []
  day ← field p2 1 31 []
  month ← field p3 1 12 months
  weekday ← field p4 0 7 days
  ok (record {
    text = t;
    minute = minute;
    hour = hour;
    day = day;
    month = month;
    weekday = fold_sunday weekday;
    day_star = starts_with_star p2;
    weekday_star = starts_with_star p4;
  })
parse_fields t _ = err not_five_fields

-- `parse`, where `none` stands for an argument that is no string
unfoldable pub parse : Option Text → Outcome Spec
unfolding normalize all_allowed get_or parse_fields
parse none = err not_a_string
parse (some text) =
    let t = normalize text in
    let full = get_or t aliases in
    if is_empty t || ltb max_len (length t)
    then err bad_length
    else if not (all_allowed t)
    then err bad_character
    else if text_eq t manual_text
    then ok (bare manual_text)
    else parse_fields full (split b' ' full)

-- `text or ""`
abbrev or_blank : Option Text → Text
or_blank none = []
or_blank (some text) = text

-- The argument `new` says that the job is being made; `none` is Python's `None`.
unfoldable pub parse_for_job : Option Text → Bool → Outcome Spec
parse_for_job text new =
    if new && is_empty (words (or_blank text))
    then ok (bare manual_text)
    else parse (some (or_blank text))

-- Vixie's rule for the two day fields
unfoldable pub day_ok : Spec → Bool → Bool → Bool
day_ok spec dom_ok dow_ok =
    if spec.day_star || spec.weekday_star then dom_ok && dow_ok else dom_ok || dow_ok

unfoldable pub matches : Spec → Moment → Bool
unfolding is_manual day_ok
matches spec dt =
    if is_manual spec
    then false
    else if not (mem dt.minute spec.minute)
        || not (mem dt.hour spec.hour)
        || not (mem (month_of dt.day) spec.month)
    then false
    else (let wd = (weekday dt.day + 1) % 7 in
        let dom_ok = mem (day_of_month dt.day) spec.day in
        let dow_ok = mem wd spec.weekday in day_ok spec dom_ok dow_ok)
