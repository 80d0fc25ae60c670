-- ===== src/Sched/Commands/Kept.antt =====
-- schedctl.py: the commands and the table of jobs.
use pipe_os.Prelude.{
  ◌≡◌, refl, ap, ◌∙◌, Bool, true, false, inl, inr, Bool-cases, Option, none, some, List, [], ◌∷◌,
  leb, ◌==◌, if◌then◌else◌, length, Text, is_empty, codes, arith,
}
use pipe_os.Prelude.Fallible.{Fallible, ok, err, bind-eq-ok, ok-injective}
use pipe_os.Prelude.Dict.{Dict, has}
use pipe_os.Cron.Field.{CronError}
use pipe_os.Cron.Spec.{Spec, parse}
use pipe_os.Ledger.Pause.{Doc}
use pipe_os.Sched.{no_job, job_exists, caps_checked, Job, World, Reply, refused, crashed}
use pipe_os.Sched.Flags.{Outcome, parse_flags, apply}
use pipe_os.Sched.Flags.Named.{apply-name}
use pipe_os.Sched.Commands.{
  read_jobs, is_job_name, find, put_at, without, name_of, rest_of, flag_names, fresh_job, added,
  changed, edited, save, also, cmd_add_set, cmd_rm, cmd_toggle, cmd_run, System, main,
}
use pipe_os.Sched.Commands.Table.{
  IsTable, read_jobs-all, find-name, find-none, put_at-IsTable, append-IsTable, without-IsTable,
}

added-IsTable :
    (name : Text) (jobs : List Job) (applied : Outcome Job) (r : List Job × Job)
    → ((j : Job) → applied ≡ ok j → j.name ≡ name)
    → IsTable jobs
    → is_job_name name ≡ true
    → find name jobs ≡ none
    → added name jobs applied ≡ ok r
    → IsTable r.0
unfolding added
added-IsTable name jobs applied r named t good absent e =
    let room : leb 32 (length jobs) ≡ false = ground (arith, e) in
    let (j, e1, e2) = bind-eq-ok applied _ (rw (room, added) at e) in
    let same = named j e1 in
    rw (← ap (λ x. x.0) (ok-injective e2)) (
      append-IsTable jobs j t (rw same good) (rw same (find-none name jobs absent))
        (ground (arith, room)))

changed-IsTable :
    (name : Text) (jobs : List Job) (applied : Outcome Job) (r : List Job × Job)
    → ((j : Job) → applied ≡ ok j → j.name ≡ name)
    → IsTable jobs
    → changed name jobs applied ≡ ok r
    → IsTable r.0
unfolding changed
changed-IsTable name jobs applied r named t e =
    let (j, e1, e2) = bind-eq-ok applied _ e in
    rw (← ap (λ x. x.0) (ok-injective e2)) (put_at-IsTable name j jobs (named j e1) t)

module _ (realpath : Text → Text) (which : Text → Bool) where
  edited-IsTable :
      (argv : List Text) (new : Bool) (jobs : List Job) (r : (List Job × Job) × Dict Text)
      → IsTable jobs
      → edited realpath which argv new jobs ≡ ok r
      → IsTable r.0.0
  unfolding edited
  edited-IsTable argv new jobs r t e =
      let name = name_of argv in
      let typed : is_empty argv ≡ false = ground (arith, e) in
      let good : is_job_name name ≡ true = ground (arith, e) in
      let (flags, e1, e2) =
        bind-eq-ok (parse_flags (rest_of argv) flag_names) _
          (rw good at (rw (typed, edited) at e)) in
      let (r1, e3, e4) = bind-eq-ok _ _ e2 in
      let same : (r1, flags) ≡ r = ok-injective e4 in
      rw (← ap (λ x. x.0) same) (by_entry flags r1 good (find name jobs) refl e3)
    where
      by_entry :
          (flags : Dict Text) (r1 : List Job × Job)
          → is_job_name (name_of argv) ≡ true
          → (o : Option Job) → find (name_of argv) jobs ≡ o
          → ◌≡◌ {A = Outcome (List Job × Job)}
              (elim o [
                | none ↦
                    if new
                    then added
                        (name_of argv)
                        jobs
                        (apply realpath which (fresh_job (name_of argv)) flags new)
                    else err no_job
                | some cur ↦
                    if new
                    then err job_exists
                    else changed (name_of argv) jobs (apply realpath which cur flags new)
              ])
              (ok r1)
          → IsTable r1.0
      by_entry flags r1 good none q f = elim (Bool-cases new) [
        | inl yes' ↦
            added-IsTable (name_of argv) jobs
              (apply realpath which (fresh_job (name_of argv)) flags new) r1
              (λ j. apply-name realpath which (fresh_job (name_of argv)) j flags new) t good q
              (ground (arith, f, yes'))
        | inr no' ↦ absurd (ground (arith, f, no'))
      ]
      by_entry flags r1 good (some cur) q f = elim (Bool-cases new) [
        | inl yes' ↦ absurd (ground (arith, f, yes'))
        | inr no' ↦
            changed-IsTable (name_of argv) jobs (apply realpath which cur flags new) r1
              (λ j e'.
                apply-name realpath which cur j flags new e' ∙ find-name (name_of argv) jobs cur q)
              t (ground (arith, f, no'))
      ]

-- The table of the world is well formed.
abbrev pub IsKept : World → Type 0
IsKept w = IsTable w.jobs

abbrev Leaves : Reply × World → Type 0
Leaves r = IsKept r.1

read-IsTable : (jobs : List Job) → IsTable jobs → IsTable (read_jobs jobs)
read-IsTable jobs t = rw (read_jobs-all jobs t.allowed) t

cmd_add_set-IsKept :
    (saves : Bool) (realpath : Text → Text) (which : Text → Bool) (argv : List Text) (new : Bool)
    (w : World)
    → IsKept w
    → IsKept (cmd_add_set saves realpath which argv new w).1
unfolding cmd_add_set save
cmd_add_set-IsKept saves realpath which argv new w t =
    by_edit (edited realpath which argv new (read_jobs w.jobs))
      (λ r. edited-IsTable realpath which argv new (read_jobs w.jobs) r (read-IsTable w.jobs t))
  where
    by_spec :
        (m : Fallible CronError Spec) (w1 w2 : World)
        → IsKept w1
        → IsKept w2
        → Leaves (elim m [ err e ↦ (crashed e, w1) | ok spec ↦ save saves w2 ])
    by_spec (err e) w1 w2 h k = h
    by_spec (ok spec) w1 w2 h k = k

    capped :
        (c : Bool) (w1 : World) → IsKept w1 → IsKept (if c then also saves caps_checked w1 else w1)
    capped true w1 h = h
    capped false w1 h = h

    by_edit :
        (m : Outcome ((List Job × Job) × Dict Text))
        → ((r : (List Job × Job) × Dict Text) → m ≡ ok r → IsTable r.0.0)
        → Leaves (elim m [
          | err e ↦ (refused e, w)
          | ok ((jobs, job), flags) ↦
              (let w' : World = record w { jobs = jobs } in
                elim (parse (some job.cron)) [
                  | err e ↦ (crashed e, w')
                  | ok spec ↦
                      save saves
                        (if has (codes "cap") flags then also saves caps_checked w' else w')
                ])
        ])
    by_edit (err e) h = t
    by_edit (ok ((jobs, job), flags)) h =
        by_spec (parse (some job.cron)) (record w { jobs = jobs }) _ (h _ refl)
          (capped (has (codes "cap") flags) _ (h _ refl))

cmd_rm-IsKept :
    (saves : Bool) (argv : List Text) (w : World) → IsKept w → IsKept (cmd_rm saves argv w).1
unfolding cmd_rm save
cmd_rm-IsKept saves argv w t =
    rw (read_jobs-all w.jobs t.allowed)
      (elim (Bool-cases (length (without (name_of argv) w.jobs) == length w.jobs)) [
        | inl same ↦ rw same t
        | inr fewer ↦ rw fewer (without-IsTable (name_of argv) w.jobs t)
      ])

cmd_toggle-IsKept :
    (saves : Bool) (argv : List Text) (on : Bool) (w : World)
    → IsKept w
    → IsKept (cmd_toggle saves argv on w).1
unfolding cmd_toggle save
cmd_toggle-IsKept saves argv on w t = by_entry (find (name_of argv) (read_jobs w.jobs)) refl
  where
    by_entry :
        (o : Option Job)
        → find (name_of argv) (read_jobs w.jobs) ≡ o
        → Leaves (elim o [
          | none ↦ (refused no_job, w)
          | some cur ↦ save saves (record w {
            jobs = put_at (name_of argv) (record cur { enabled = some on }) (read_jobs w.jobs);
          })
        ])
    by_entry none q = t
    by_entry (some cur) q =
        put_at-IsTable (name_of argv) (record cur { enabled = some on }) (read_jobs w.jobs)
          (find-name (name_of argv) (read_jobs w.jobs) cur q) (read-IsTable w.jobs t)

cmd_run-IsKept :
    (marker : Text) (d : Doc) (argv : List Text) (w : World)
    → IsKept w
    → IsKept (cmd_run marker d argv w).1
unfolding cmd_run
cmd_run-IsKept marker d argv w t = ground (arith, t)

-- Whatever is typed, `main` leaves a table of at most 32 jobs with names that are allowed and stand
-- once, if the table was one before.
pub main-IsTable :
    (s : System) (argv : List Text) (w : World) → IsTable w.jobs → IsTable (main s argv w).1.jobs
unfolding main
main-IsTable s [] w t = t
main-IsTable s (verb ∷ rest) w t = ground (
  arith,
  t,
  cmd_add_set-IsKept s.saves s.realpath s.which rest true w t,
  cmd_add_set-IsKept s.saves s.realpath s.which rest false w t,
  cmd_rm-IsKept s.saves rest w t,
  cmd_toggle-IsKept s.saves rest true w t,
  cmd_toggle-IsKept s.saves rest false w t,
  cmd_run-IsKept s.marker s.doc rest w t,
)
