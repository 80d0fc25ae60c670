-- ===== src/Sched/Flags/Named.antt =====
-- `apply` of schedctl.py and the name of the job.
use pipe_os.Prelude.{◌≡◌, refl, ◌∙◌, Bool, true, false, Text, codes, arith}
use pipe_os.Prelude.Fallible.{ok, bind-eq-ok}
use pipe_os.Prelude.Dict.{Dict}
use pipe_os.Sched.{Job}
use pipe_os.Sched.Flags.{
  apply_cron, apply_prompt, apply_cwd, apply_backend, apply_cap, apply_needs, apply_switch,
  apply_session, apply,
}

-- A step of `apply` keeps the name of the job.
module _ (flags : Dict Text) (new : Bool) (job j : Job) where
  apply_prompt-name : apply_prompt flags new job ≡ ok j → j.name ≡ job.name
  unfolding apply_prompt
  apply_prompt-name e = ground (arith, e)

  apply_cap-name : apply_cap flags job ≡ ok j → j.name ≡ job.name
  unfolding apply_cap
  apply_cap-name e = ground (arith, e)

  apply_cron-name : apply_cron flags new job ≡ ok j → j.name ≡ job.name
  unfolding apply_cron
  apply_cron-name e = ground (arith, e)

  apply_needs-name : apply_needs flags job ≡ ok j → j.name ≡ job.name
  unfolding apply_needs
  apply_needs-name e = ground (arith, e)

  apply_session-name : apply_session flags job ≡ ok j → j.name ≡ job.name
  unfolding apply_session
  apply_session-name e = ground (arith, e)

  apply_switch-name :
      (key : Text) (put : Job → Bool → Job)
      → ((b : Bool) → (put job b).name ≡ job.name)
      → apply_switch key put flags job ≡ ok j
      → j.name ≡ job.name
  unfolding apply_switch
  apply_switch-name key put h e = ground (arith, e, h true, h false)

  apply_cwd-name :
      (realpath : Text → Text) (which : Text → Bool)
      → apply_cwd realpath which flags job ≡ ok j
      → j.name ≡ job.name
  unfolding apply_cwd
  apply_cwd-name realpath which e = ground (arith, e)

  apply_backend-name :
      (realpath : Text → Text) (which : Text → Bool)
      → apply_backend realpath which flags job ≡ ok j
      → j.name ≡ job.name
  unfolding apply_backend
  apply_backend-name realpath which e = ground (arith, e)

module _ (realpath : Text → Text) (which : Text → Bool) where
  pub apply-name :
      (job j : Job) (flags : Dict Text) (new : Bool)
      → apply realpath which job flags new ≡ ok j
      → j.name ≡ job.name
  unfolding apply
  apply-name job j flags new e =
      let (j8, e8, s9) = bind-eq-ok _ (apply_session flags) e in
      let (j7, e7, s8) = bind-eq-ok _ (apply_switch (codes "enabled") _ flags) e8 in
      let (j6, e6, s7) = bind-eq-ok _ (apply_switch (codes "notify") _ flags) e7 in
      let (j5, e5, s6) = bind-eq-ok _ (apply_needs flags) e6 in
      let (j4, e4, s5) = bind-eq-ok _ (apply_cap flags) e5 in
      let (j3, e3, s4) = bind-eq-ok _ (apply_backend realpath which flags) e4 in
      let (j2, e2, s3) = bind-eq-ok _ (apply_cwd realpath which flags) e3 in
      let (j1, s1, s2) = bind-eq-ok (apply_cron flags new job) (apply_prompt flags new) e2 in
      apply_session-name flags new j8 j s9
      ∙ apply_switch-name flags new j7 j8 (codes "enabled") _ (λ b. refl) s8
      ∙ apply_switch-name flags new j6 j7 (codes "notify") _ (λ b. refl) s7
      ∙ apply_needs-name flags new j5 j6 s6
      ∙ apply_cap-name flags new j4 j5 s5
      ∙ apply_backend-name flags new j3 j4 realpath which s4
      ∙ apply_cwd-name flags new j2 j3 realpath which s3
      ∙ apply_prompt-name flags new j1 j2 s2
      ∙ apply_cron-name flags new job j1 s1
