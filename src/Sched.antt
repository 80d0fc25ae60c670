-- ===== src/Sched.antt =====
-- schedctl.py: the table of scheduled jobs from the command line. Digits are those of ASCII.
pub mod Flags
pub mod Commands
use pipe_os.Prelude.{ℕ, Bool, true, false, Option, none, some, List, [], ◌∷◌, Text, codes}
use pipe_os.Cron.Field.{CronError}

-- A job of the table; a missing text is empty, and so are missing needs.
pub record Job : Type 0 where
  pub name : Text
  pub prompt : Text
  pub cron : Text
  pub cwd : Text
  pub backend : Text
  pub session : Text
  pub notify : Bool
  pub enabled : Option Bool
  pub cap_usd : Option ℕ
  pub needs : List Text

-- The messages of `Refused`.
pub data Refused : Type 0 where
  usage bad_name job_exists no_job too_many no_prompt prompt_too_long : Refused
  outside_work unknown_backend not_installed bad_cap bad_needs bad_session is_disabled : Refused
  unknown_flag needs_value bad_switch unknown_verb paused : Text → Refused
  bad_schedule : CronError → Refused

-- What a command does besides the table, in its order.
pub data Effect : Type 0 where
  caps_checked saved : Effect
  session_dropped started : Text → Effect

-- The table in its file, with what was done.
pub record World : Type 0 where
  pub jobs : List Job
  pub effects : List Effect

-- The exit status, a refusal (status 2), or an error of the schedule that nothing catches.
pub data Reply : Type 0 where
  status : ℕ → Reply
  refused : Refused → Reply
  crashed : CronError → Reply
