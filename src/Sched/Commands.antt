-- ===== src/Sched/Commands.antt =====
-- schedctl.py, the commands and `main`. A command returns its reply and the world that it leaves;
-- what it prints is left out.
pub mod Table
pub mod Kept
use pipe_os.Prelude.{
  ℕ, Bool, true, false, ◌&&◌, ◌||◌, not, Option, none, some, List, [], ◌∷◌, ◌++◌, leb, ltb, ◌==◌,
  if◌then◌else◌, length, Text, text_eq, is_empty, codes,
}
use pipe_os.Prelude.Fallible.{Fallible, ok, err, ◌>>=◌}
use pipe_os.Prelude.Dict.{Dict, has}
use pipe_os.Prelude.Ascii.{lower, strip_space}
use pipe_os.Cron.Spec.{parse}
use pipe_os.Ledger.Pause.{Doc, why_paused}
use pipe_os.Sched.{
  Job, Refused, usage, bad_name, job_exists, no_job, too_many, is_disabled, unknown_verb, paused,
  Effect, caps_checked, saved, session_dropped, started, World, Reply, status, refused, crashed,
}
use pipe_os.Sched.Flags.{Outcome, parse_flags, apply}

-- `read_jobs`: those that have a name
unfoldable pub read_jobs : List Job → List Job
read_jobs [] = []
read_jobs (j ∷ jobs) = let rest = read_jobs jobs in if is_empty j.name then rest else j ∷ rest

unfoldable pub is_job_char : ℕ → Bool
is_job_char c = (leb b'a' c && leb c b'z') || (leb b'0' c && leb c b'9') || c == b'-'

unfoldable pub all_job_chars : Text → Bool
unfolding is_job_char
all_job_chars [] = true
all_job_chars (c ∷ s) = is_job_char c && all_job_chars s

-- `NAME_RE.match(name)`, of a name that `strip` has left no line end
unfoldable pub is_job_name : Text → Bool
unfolding is_job_char all_job_chars
is_job_name [] = false
is_job_name (c ∷ s) = is_job_char c && not (c == b'-') && all_job_chars s && leb (length s) 31

-- `next(j for j in jobs if j["name"] == name)`
unfoldable pub find : Text → List Job → Option Job
find name [] = none
find name (j ∷ jobs) = if text_eq j.name name then some j else find name jobs

-- `jobs[jobs.index(cur)] = job`, where `cur` is the first of its name
unfoldable pub put_at : Text → Job → List Job → List Job
put_at name job [] = []
put_at name job (j ∷ jobs) =
    let rest = put_at name job jobs in if text_eq j.name name then job ∷ jobs else j ∷ rest

-- `[j for j in jobs if j["name"] != name]`
unfoldable pub without : Text → List Job → List Job
without name [] = []
without name (j ∷ jobs) =
    let rest = without name jobs in if text_eq j.name name then rest else j ∷ rest

unfoldable pub name_of : List Text → Text
name_of [] = []
name_of (a ∷ argv) = lower (strip_space a)

abbrev pub fresh_job : Text → Job
fresh_job name = record {
  name = name;
  prompt = [];
  cron = [];
  cwd = [];
  backend = codes "claude";
  session = codes "fresh";
  notify = true;
  enabled = some true;
  cap_usd = none;
  needs = [];
}

abbrev pub rest_of : List Text → List Text
rest_of [] = []
rest_of (a ∷ argv) = argv

-- The flags of `add` and `set`.
abbrev flag_names : List Text
flag_names =
    codes "cron"
    ∷ codes "prompt"
    ∷ codes "cwd"
    ∷ codes "backend"
    ∷ codes "notify"
    ∷ codes "session"
    ∷ codes "cap"
    ∷ codes "needs"
    ∷ []

-- The table and the job where the job is new.
unfoldable pub added : Text → List Job → Outcome Job → Outcome (List Job × Job)
added name jobs applied =
    if leb 32 (length jobs) then err too_many else (do job ← applied; ok (jobs ++ job ∷ [], job))

unfoldable pub changed : Text → List Job → Outcome Job → Outcome (List Job × Job)
changed name jobs applied = do job ← applied; ok (put_at name job jobs, job)

-- `realpath` and `which` are the system's; `saves` is whether pipeos-save succeeds.
module _ (realpath : Text → Text) (which : Text → Bool) where
  -- `cmd_add_set` up to the writing of the table
  unfoldable pub edited : List Text → Bool → List Job → Outcome ((List Job × Job) × Dict Text)
  unfolding name_of find added changed
  edited argv new jobs =
      let name = name_of argv in
      if is_empty argv then err usage else if not (is_job_name name) then err bad_name else (do
        flags ← parse_flags (rest_of argv) flag_names
        r ← elim (find name jobs) [
          | none ↦
              if new
              then added name jobs (apply realpath which (fresh_job name) flags new)
              else err no_job
          | some cur ↦
              if new then err job_exists else changed name jobs (apply realpath which cur flags new)
        ]
        ok (r, flags))

module _ (saves : Bool) where
  -- `save`
  unfoldable pub save : World → Reply × World
  save w = (status (if saves then 0 else 1), record w { effects = w.effects ++ saved ∷ [] })

  abbrev pub also : Effect → World → World
  also e w = record w { effects = w.effects ++ e ∷ [] }

  unfoldable pub cmd_add_set :
      (Text → Text) → (Text → Bool) → List Text → Bool → World → Reply × World
  unfolding edited save read_jobs
  cmd_add_set realpath which argv new w = elim (edited realpath which argv new (read_jobs w.jobs)) [
    | err e ↦ (refused e, w)
    | ok ((jobs, job), flags) ↦
        (let w' : World = record w { jobs = jobs } in
          elim (parse (some job.cron)) [
            | err e ↦ (crashed e, w')
            | ok spec ↦ save (if has (codes "cap") flags then also caps_checked w' else w')
          ])
  ]

  unfoldable pub cmd_rm : List Text → World → Reply × World
  unfolding name_of without save read_jobs
  cmd_rm argv w =
      let jobs = read_jobs w.jobs in
      let keep = without (name_of argv) jobs in
      if length keep == length jobs
      then (refused no_job, w)
      else save (also (session_dropped (name_of argv)) (record w { jobs = keep }))

  unfoldable pub cmd_toggle : List Text → Bool → World → Reply × World
  unfolding name_of find put_at save read_jobs
  cmd_toggle argv on w =
      let jobs = read_jobs w.jobs in
      elim (find (name_of argv) jobs) [
        | none ↦ (refused no_job, w)
        | some cur ↦
            save (record w { jobs = put_at (name_of argv) (record cur { enabled = some on }) jobs })
      ]

abbrev is_on : Option Bool → Bool
is_on none = true
is_on (some b) = b

-- `cmd_run`, with the plain marker and the pause document of the ledger
unfoldable pub cmd_run : Text → Doc → List Text → World → Reply × World
unfolding name_of find read_jobs
cmd_run marker doc argv w =
    let name = name_of argv in
    elim (find name (read_jobs w.jobs)) [
      | none ↦ (refused no_job, w)
      | some job ↦
          (let why = why_paused marker doc name in
            if not (is_on job.enabled)
            then (refused is_disabled, w)
            else if not (is_empty why)
            then (refused (paused why), w)
            else (status 0, record w { effects = w.effects ++ started name ∷ [] }))
    ]

-- What the commands read of the Machine around them; `shows` is what `ls` and `log` return.
pub record System : Type 0 where
  pub realpath : Text → Text
  pub which : Text → Bool
  pub saves : Bool
  pub marker : Text
  pub doc : Doc
  pub shows : List Text → Reply

-- `main`; `ls`, `log` and the help change nothing.
unfoldable pub main : System → List Text → World → Reply × World
unfolding cmd_add_set cmd_rm cmd_toggle cmd_run
main s [] w = (status 2, w)
main s (verb ∷ rest) w =
    if text_eq verb (codes "-h") || text_eq verb (codes "--help")
    then (status 0, w)
    else if text_eq verb (codes "ls") || text_eq verb (codes "log")
    then (s.shows (verb ∷ rest), w)
    else if text_eq verb (codes "add")
    then cmd_add_set s.saves s.realpath s.which rest true w
    else if text_eq verb (codes "set")
    then cmd_add_set s.saves s.realpath s.which rest false w
    else if text_eq verb (codes "rm")
    then cmd_rm s.saves rest w
    else if text_eq verb (codes "enable")
    then cmd_toggle s.saves rest true w
    else if text_eq verb (codes "disable")
    then cmd_toggle s.saves rest false w
    else if text_eq verb (codes "run")
    then cmd_run s.marker s.doc rest w
    else (refused (unknown_verb verb), w)
