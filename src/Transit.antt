-- ===== src/Transit.antt =====
-- The lookup of transit times between places.
pub mod Request
pub mod Resolver
mod Examples
