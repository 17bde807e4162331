-- ===== src/Solver.antt =====
-- The deterministic policy around the two stages of the solver.
pub mod Repair
pub mod Examples
