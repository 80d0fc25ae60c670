-- ===== src/Tests/TwoUsers.antt =====
-- A box of webd.py with an admin and a viewer, each with a session.
use pipe_os.Prelude.{
  true, false, Option, none, some, [], ◌∷◌, ◌==◌, if◌then◌else◌, length, Text, text_eq, codes,
}
use pipe_os.Webd.{Role, admin, viewer, fields, SessionFile, Session, listed, hashed, Box, Tools}
use pipe_os.Webd.Users.{bare_user}

-- A token of 64 digits each.
abbrev pub token_a : Text
token_a = codes "aaaaaaaaaaaaaaaaaaaaaaaaaaaaaaaaaaaaaaaaaaaaaaaaaaaaaaaaaaaaaaaa"

abbrev pub token_b : Text
token_b = codes "bbbbbbbbbbbbbbbbbbbbbbbbbbbbbbbbbbbbbbbbbbbbbbbbbbbbbbbbbbbbbbbb"

-- A stand-in for openssl that knows one salt.
abbrev pub toy : Tools
toy = record {
  passwd = λ salt line.
      if text_eq salt (codes "ab")
      then some (if length line == 10 then codes "$6$ab$Yes" else codes "$6$ab$No")
      else none;
  unix_add = λ name. true;
  set_key = λ name key. true;
  passwd_names = codes "root" ∷ [];
}

abbrev pub toy_hash : Option Text
toy_hash = some (codes "$6$ab$Yes")

abbrev pub session_file : Text → Role → SessionFile
session_file name role = record { mtime = 1000; body = fields name role }

-- An admin and a viewer, each with a session.
abbrev pub two_users : Box
two_users = record {
  users_conf =
      listed
        (bare_user (codes "admin") admin toy_hash ∷ bare_user (codes "eve") viewer toy_hash ∷ []);
  admin_conf = hashed (codes "$6$ab$Yes");
  sessions =
      (token_a, session_file (codes "admin") admin)
      ∷ (token_b, session_file (codes "eve") viewer)
      ∷ [];
  terminals_conf = [];
  terminals_on = false;
  calls = [];
}

abbrev pub eve_session : Session
eve_session = record { user = codes "eve"; role = viewer; peer = none }
