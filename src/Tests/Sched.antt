-- ===== src/Tests/Sched.antt =====
-- schedctl.py on a table of one job.
use pipe_os.Prelude.{◌≡◌, refl, true, false, [], ◌∷◌, none, some, List, Text, codes, arith}
use pipe_os.Prelude.Ascii.{lower, strip_space, text_in}
use pipe_os.Ledger.Pause.{no_pause}
use pipe_os.Sched.{Job, World, status}
use pipe_os.Sched.Commands.{
  is_job_name, is_job_char, all_job_chars, name_of, find, put_at, read_jobs, save, cmd_toggle,
  System, main,
}
use pipe_os.Sched.Commands.Table.{IsTable, names}
use pipe_os.Sched.Commands.Kept.{main-IsTable}

abbrev digest : Job
digest = record {
  name = codes "digest";
  prompt = codes "Sum up";
  cron = codes "0 7 * * *";
  cwd = [];
  backend = codes "claude";
  session = codes "fresh";
  notify = true;
  enabled = none;
  cap_usd = some 5;
  needs = [];
}

abbrev one_job : World
one_job = record { jobs = digest ∷ []; effects = [] }

abbrev system : System
system = record {
  realpath = λ p. p;
  which = λ p. true;
  saves = true;
  marker = [];
  doc = no_pause;
  shows = λ argv. status 0;
}

one_job-IsTable : IsTable one_job.jobs
unfolding names is_job_name is_job_char all_job_chars text_in
one_job-IsTable = record { allowed = (refl, tt); once = (refl, tt); bounded = ground arith }

abbrev typed : List Text
typed = codes "add" ∷ codes "Night-Watch" ∷ codes "--prompt" ∷ codes "Look" ∷ []

main-IsTable_example : IsTable (main system typed one_job).1.jobs
main-IsTable_example = main-IsTable system typed one_job one_job-IsTable

turned_off :
    (main system (codes "disable" ∷ codes " Digest" ∷ []) one_job).1.jobs
    ≡ (record digest { enabled = some false } ∷ [])
unfolding main cmd_toggle name_of find put_at read_jobs save lower strip_space
turned_off = refl
