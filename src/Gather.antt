-- ===== src/Gather.antt =====
-- The discovery job of a trip: syncinerary/store/repositories/gather.py and syncinerary/workers/gather.py.
pub mod Runs
pub mod Intents
pub mod Candidates
pub mod Dedup
pub mod Deck
pub mod Pool
pub mod SocialSearch
pub mod Examples
mod SearchExamples
mod PlaceExamples
mod PoolExamples
