-- ===== src/Ledger.antt =====
-- ledger.py: what the Machine spends, the caps, and the pauses that the caps cause.
pub mod Money
pub mod Pause
pub mod Cap
pub mod Rates
pub mod Cursor
pub mod Rows
pub mod Ingest
