-- ===== src/Harness.antt =====
-- syncinerary/harness: the limits on a run, and the calls that spend them.
pub mod Budget
pub mod LoopDetector
pub mod Ledger
pub mod Runs
pub mod Calls
pub mod Tools
pub mod Examples
