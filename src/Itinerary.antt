-- ===== src/Itinerary.antt =====
-- Itinerary versions: how two of them differ, and how a proposed one becomes the active one.
pub mod Diff
pub mod Decision
pub mod Disruption
pub mod Versions
pub mod Examples
