-- ===== src/Tests/Vault.antt =====
-- vault.py with tools that hide nothing.
use pipe_os.Prelude.{
  ◌≡◌, refl, true, [], ◌∷◌, ◌++◌, Option, none, some, List, if◌then◌else◌, Text, text_eq, codes,
}
use pipe_os.Prelude.Fallible.{ok, ◌>>=◌}
use pipe_os.Prelude.Dict.{Dict, get, set, del, has}
use pipe_os.Prelude.Ascii.{lower, has_char, text_in, starts_with, sorted_texts}
use pipe_os.Vault.{Secret, Secrets, Env, Ident, norm_phrase, read, relock, open_blob, unwrap, load}
use pipe_os.Vault.Names.{matches_name, name_rest, is_name_char}
use pipe_os.Vault.Operations.{Fresh, text, fetch, put, unlock, record_of}
use pipe_os.Vault.Refinement.Steps.{
  Request, put_in, forget, move, Safe, Kept, Leaves, plain, promise,
}
use pipe_os.Vault.Refinement.Kept.{run_all, promise_all, run_all-Leaves, fetch-put}
use pipe_os.Vault.Export.{
  Content, file_name, is_file_char, export_one, files_of, write_files, remove_files, known, export,
}
use pipe_os.Vault.Export.Directory.{written, export-get, export-no_passdb}
use pipe_os.Tests.Plain.{zeros, plain_tools, plain_works, take_secret, put_secret}

abbrev old_box : Ident
old_box = record { mac = codes "aa:bb"; serial = codes "S1"; product = codes "NUC" }

abbrev new_box : Ident
new_box = record { mac = codes "cc:dd"; serial = codes "S2"; product = codes "NUC" }

abbrev fresh : Fresh
fresh = record {
  now = 1000;
  key = codes "key";
  token = codes "00112233445566778899aabbccddeeff";
  seed = codes "5eed";
  chassis_salt = codes "01";
  recovery_salt = codes "02";
  first_salt = [];
  second_salt = [];
  third_salt = [];
}

abbrev digits : Text
digits = codes "00112233445566778899aabbccddeeff"

-- A vault of these secrets, with the key "key".
abbrev env_of : Secrets → Env
env_of d = record {
  version = 1;
  seed = codes "5eed";
  created = 900;
  ident_hint = codes "aa:bb";
  chassis = record { salt = codes "01"; wrapped = zeros 16 ++ (codes "key" ++ zeros 32) };
  recovery = record { salt = codes "02"; wrapped = zeros 16 ++ (codes "key" ++ zeros 32) };
  payload = zeros 16 ++ (plain_tools.dumps d ++ zeros 32);
  updated = 950;
}

abbrev safe : Secrets → Safe
safe d = record { ident = old_box; digits = digits; secrets = d }

abbrev raw_secret : Text → Secret
raw_secret v = record {
  v = v;
  raw = true;
  consumer = codes "nas";
  set_at = 940;
  by = codes "boot";
  shared = [];
}

abbrev users : Secrets
users = (codes "nas_passdb", raw_secret (codes "TDB")) ∷ []

no_secrets-Kept : Kept plain_tools plain_works (safe []) (some (env_of []))
unfolding open_blob
no_secrets-Kept = record {
  env = env_of [];
  k = codes "key";
  stored = refl;
  version = refl;
  by_chassis = refl;
  by_phrase = refl;
  sealed = refl;
}

users-Kept : Kept plain_tools plain_works (safe users) (some (env_of users))
unfolding open_blob put_secret
users-Kept = record {
  env = env_of users;
  k = codes "key";
  stored = refl;
  version = refl;
  by_chassis = refl;
  by_phrase = refl;
  sealed = refl;
}

-- A token is set, the stick moves to another box, and the token is deleted there.
abbrev requests : List (Request × Fresh)
requests =
    (put_in (codes "claude_token") (text (codes "sk")) [] (codes "web"), fresh)
    ∷ (move new_box (codes "0011-2233-4455-6677-8899-AABB-CCDD-EEFF"), fresh)
    ∷ (forget (codes "claude_token"), fresh)
    ∷ []

abbrev moved_safe : Safe
moved_safe = record { ident = new_box; digits = digits; secrets = [] }

promise_run : promise_all plain_tools requests (safe []) ≡ some moved_safe
unfolding promise_all promise matches_name name_rest is_name_char has_char norm_phrase lower
    record_of has get set del
promise_run = refl

run_all-Leaves_example :
    Leaves plain_tools plain_works
      (run_all plain_tools old_box requests (some (env_of [])))
      moved_safe
run_all-Leaves_example =
    run_all-Leaves plain_tools plain_works requests (safe []) moved_safe (some (env_of []))
      promise_run no_secrets-Kept

named : matches_name (codes "jobs.gh_token") ≡ true
unfolding matches_name name_rest is_name_char
named = refl

plain_value : plain (text (codes "ghp")) ≡ true
unfolding has_char
plain_value = refl

typed : text_eq (norm_phrase (codes "0011-2233-4455-6677-8899-AABB-CCDD-EEFF")) digits ≡ true
unfolding norm_phrase lower
typed = refl

fetch-put_example :
    (moved : Option Env) × ((put plain_tools old_box
          (codes "jobs.gh_token")
          (text (codes "ghp"))
          []
          []
          fresh
          (some (env_of []))
        >>= unlock plain_tools new_box (codes "0011-2233-4455-6677-8899-AABB-CCDD-EEFF") fresh)
      ≡ ok moved)
    × (fetch plain_tools new_box (codes "jobs.gh_token") moved ≡ ok (text (codes "ghp")))
fetch-put_example =
    fetch-put plain_tools plain_works (codes "jobs.gh_token") (text (codes "ghp")) [] [] fresh fresh
      (safe []) (some (env_of [])) new_box (codes "0011-2233-4455-6677-8899-AABB-CCDD-EEFF")
      no_secrets-Kept named plain_value typed

-- The database of the users lies where the service reads it, before the export.
abbrev before : Dict Content
before = (codes "nas/passdb.tdb", Content.bytes (codes "TDB")) ∷ []

abbrev after_export : Dict Content
after_export = (codes "nas_passdb", Content.bytes (codes "TDB")) ∷ []

export_run :
    export plain_tools old_box (some (env_of users)) before
    ≡ ok (codes "nas_passdb" ∷ [], after_export)
unfolding export load unwrap read relock open_blob files_of export_one file_name is_file_char
    write_files remove_files sorted_texts starts_with has get set del take_secret put_secret
export_run = refl

export-no_passdb_example : get (codes "nas/passdb.tdb") after_export ≡ none
export-no_passdb_example =
    export-no_passdb plain_tools plain_works before after_export users-Kept ((λ _. refl), tt)
      export_run

export-get_example :
    (files : Dict Content) × (files_of plain_tools users [] ≡ ok files)
    × ((fname : Text)
        → get fname after_export
          ≡ written (get fname files) (if text_in fname known then none else get fname before))
export-get_example = export-get plain_tools plain_works before after_export users-Kept export_run
