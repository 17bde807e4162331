-- ===== src/Consensus.antt =====
-- syncinerary/agents/aggregate.py and shortlist.py: from votes to the group's shortlist.
pub mod Scoring
pub mod Shortlist
pub mod Examples
mod RankingExamples
