-- ===== src/Webd/Passwords.antt =====
-- webd.py, the passwords: hashes of `openssl passwd -6`, which is `passwd` of the tools.
pub mod Checked
use pipe_os.Prelude.{
  Bool, false, ◌||◌, not, Option, none, some, [], ◌∷◌, ◌++◌, if◌then◌else◌, Text, text_eq, is_empty,
  codes, split, get_elem?,
}
use pipe_os.Prelude.Ascii.{strip_space, starts_with}
use pipe_os.Webd.{Tools}

-- "$6$"
abbrev pub sha512_mark : Text
sha512_mark = codes "$6$"

module _ (t : Tools) where
  -- A hash that openssl printed.
  abbrev pub marked : Option Text → Option Text
  marked none = none
  marked (some out) =
      if starts_with sha512_mark (strip_space out) then some (strip_space out) else none

  -- `hash_password`; `salt` is what openssl draws, and `none` is the RuntimeError
  unfoldable pub hash_password : Text → Text → Option Text
  hash_password salt pw = marked (t.passwd salt (pw ++ (b'\n' ∷ [])))

  abbrev pub same_hash : Option Text → Text → Bool
  same_hash none stored = false
  same_hash (some out) stored = text_eq (strip_space out) stored

  -- `check_hash`; a text with the mark has three parts at least
  unfoldable pub check_hash : Text → Option Text → Bool
  check_hash pw none = false
  check_hash pw (some stored) =
      if is_empty stored || not (starts_with sha512_mark stored)
      then false
      else elim (get_elem? (split b'$' stored) 2) [
        | none ↦ false
        | some salt ↦ same_hash (t.passwd salt (pw ++ (b'\n' ∷ []))) stored
      ]
