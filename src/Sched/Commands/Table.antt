-- ===== src/Sched/Commands/Table.antt =====
-- schedctl.py: what a well-formed table of jobs is, and the changes of a table.
use pipe_os.Prelude.{
  ◌≤◌, ◌<◌, ◌≡◌, refl, sym, ap, ◌∙◌, true, false, ◌||◌, inl, inr, Bool-cases, All, All-append, none,
  some, List, [], ◌∷◌, ◌++◌, length, length-append, Text, text_eq, text_eq_iff, is_empty, arith,
}
use pipe_os.Prelude.Ascii.{text_in}
use pipe_os.Sched.{Job}
use pipe_os.Sched.Commands.{read_jobs, is_job_name, find, put_at, without}

unfoldable pub names : List Job → List Text
names [] = []
names (j ∷ jobs) = j.name ∷ names jobs

-- Each name once.
abbrev pub Once : List Text → Type 0
Once [] = Unit
Once (n ∷ ns) = (text_in n ns ≡ false) × Once ns

-- At most 32 jobs, each with a name that is allowed and that no other has.
pub record IsTable (jobs : List Job) : Type 0 where
  pub allowed : All (λ n. is_job_name n ≡ true) (names jobs)
  pub once : Once (names jobs)
  pub bounded : length jobs ≤ 32

not_blank : (n : Text) → is_job_name n ≡ true → is_empty n ≡ false
unfolding is_job_name
not_blank [] h = ground (arith, h)
not_blank (c ∷ s) h = refl

pub read_jobs-all :
    (jobs : List Job) → All (λ n. is_job_name n ≡ true) (names jobs) → read_jobs jobs ≡ jobs
unfolding read_jobs names
read_jobs-all [] h = refl
read_jobs-all (j ∷ jobs) h = ground (arith, not_blank j.name h.0, read_jobs-all jobs h.1)

pub find-name :
    (name : Text) (jobs : List Job) (cur : Job) → find name jobs ≡ some cur → cur.name ≡ name
unfolding find
find-name name [] cur e = absurd (ground (arith, e))
find-name name (j ∷ jobs) cur e =
    ground (arith, e, find-name name jobs cur, text_eq_iff j.name name)

pub find-none :
    (name : Text) (jobs : List Job) → find name jobs ≡ none → text_in name (names jobs) ≡ false
unfolding find names text_in
find-none name [] e = refl
find-none name (j ∷ jobs) e = ground (arith, e, find-none name jobs)

names-put_at :
    (name : Text) (job : Job) (jobs : List Job)
    → job.name ≡ name
    → names (put_at name job jobs) ≡ names jobs
unfolding put_at names
names-put_at name job [] h = refl
names-put_at name job (j ∷ jobs) h = elim (Bool-cases (text_eq j.name name)) [
  | inl same ↦ rw same (ap (λ n. n ∷ names jobs) (h ∙ sym ((text_eq_iff j.name name).0 same)))
  | inr differ ↦ rw differ (ap (λ ns. j.name ∷ ns) (names-put_at name job jobs h))
]

length-put_at :
    (name : Text) (job : Job) (jobs : List Job) → length (put_at name job jobs) ≡ length jobs
unfolding put_at
length-put_at name job [] = refl
length-put_at name job (j ∷ jobs) = ground (arith, length-put_at name job jobs)

pub put_at-IsTable :
    (name : Text) (job : Job) (jobs : List Job)
    → job.name ≡ name
    → IsTable jobs
    → IsTable (put_at name job jobs)
put_at-IsTable name job jobs h t = record {
  allowed = rw (names-put_at name job jobs h) t.allowed;
  once = rw (names-put_at name job jobs h) t.once;
  bounded = rw (length-put_at name job jobs) t.bounded;
}

names-append :
    (jobs : List Job) (job : Job) → names (jobs ++ job ∷ []) ≡ names jobs ++ job.name ∷ []
unfolding names
names-append [] job = refl
names-append (j ∷ jobs) job = ap (λ ns. j.name ∷ ns) (names-append jobs job)

text_in-append :
    (x n : Text) (ns : List Text) → text_in x (ns ++ n ∷ []) ≡ (text_in x ns || text_eq n x)
unfolding text_in
text_in-append x n [] = ground arith
text_in-append x n (m ∷ ns) = ground (arith, text_in-append x n ns)

Once-append : (ns : List Text) (n : Text) → Once ns → text_in n ns ≡ false → Once (ns ++ n ∷ [])
unfolding text_in
Once-append [] n h k = (refl, tt)
Once-append (m ∷ ns) n h k = (
  ground (arith, text_in-append m n ns, h.0, k, text_eq_iff m n, text_eq_iff n m),
  Once-append ns n h.1 (ground (arith, k)),
)

pub append-IsTable :
    (jobs : List Job) (job : Job)
    → IsTable jobs
    → is_job_name job.name ≡ true
    → text_in job.name (names jobs) ≡ false
    → length jobs < 32
    → IsTable (jobs ++ job ∷ [])
append-IsTable jobs job t good new room = record {
  allowed =
      rw (names-append jobs job) (All-append _ (names jobs) (job.name ∷ []) t.allowed (good, tt));
  once = rw (names-append jobs job) (Once-append (names jobs) job.name t.once new);
  bounded = ground (arith, length-append jobs (job ∷ []), room);
}

without-All :
    (P : Text → Type 0) (name : Text) (jobs : List Job)
    → All P (names jobs)
    → All P (names (without name jobs))
unfolding without names
without-All P name [] h = tt
without-All P name (j ∷ jobs) h = elim (Bool-cases (text_eq j.name name)) [
  | inl same ↦ rw same (without-All P name jobs h.1)
  | inr differ ↦ rw differ (h.0, without-All P name jobs h.1)
]

text_in-without :
    (x name : Text) (jobs : List Job)
    → text_in x (names jobs) ≡ false
    → text_in x (names (without name jobs)) ≡ false
unfolding without names text_in
text_in-without x name [] h = refl
text_in-without x name (j ∷ jobs) h = ground (arith, h, text_in-without x name jobs)

without-Once :
    (name : Text) (jobs : List Job) → Once (names jobs) → Once (names (without name jobs))
unfolding without names
without-Once name [] h = tt
without-Once name (j ∷ jobs) h = elim (Bool-cases (text_eq j.name name)) [
  | inl same ↦ rw same (without-Once name jobs h.1)
  | inr differ ↦ rw differ (text_in-without j.name name jobs h.0, without-Once name jobs h.1)
]

length-without : (name : Text) (jobs : List Job) → length (without name jobs) ≤ length jobs
unfolding without
length-without name [] = ground arith
length-without name (j ∷ jobs) = ground (arith, length-without name jobs)

pub without-IsTable : (name : Text) (jobs : List Job) → IsTable jobs → IsTable (without name jobs)
without-IsTable name jobs t = record {
  allowed = without-All _ name jobs t.allowed;
  once = without-Once name jobs t.once;
  bounded = ground (arith, length-without name jobs, t.bounded);
}
