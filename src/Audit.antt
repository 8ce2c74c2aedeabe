-- ===== src/Audit.antt =====
-- The audit journal, src/fido/audit.c and audit.h: the record of the journal, its entries, and the
-- operations that append to it, fold it and export it.
pub mod Journal
pub mod Append
pub mod Card
pub mod Checkpoint
pub mod Log
pub mod Appended
pub mod Runs
pub mod Coalesced
pub mod History
pub mod Saved
pub mod Loaded
pub mod Recorded
mod Tests
