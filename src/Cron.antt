-- ===== src/Cron.antt =====
-- cronspec.py: the five-field cron expression of a scheduled job.
pub mod Calendar
pub mod Field
pub mod Spec
pub mod NextRun
