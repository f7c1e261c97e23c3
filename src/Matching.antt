-- ===== src/Matching.antt =====
-- services/matching_engine.py: `class MatchingEngine`. Each method is one step: the second look at a
-- candidate under WATCH sees what the first one saw.
pub mod Keys
pub mod Queue
pub mod Search
pub mod Sound
pub mod Partners
