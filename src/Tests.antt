-- ===== src/Tests.antt =====
-- Concrete runs, and the theorems at concrete inputs.
mod Cluster
mod Plain
mod Sched
mod Vault
mod TwoUsers
mod Gate
mod Webd
mod Ingest
mod Wire
mod Cron
mod Ledger
mod Tick
mod Mdns
