-- ===== src/Trips.antt =====
-- syncinerary/domain: what a trip consists of and who may join it.
pub mod CityPlan
pub mod Invites
pub mod Examples
