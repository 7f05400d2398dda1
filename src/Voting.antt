-- ===== src/Voting.antt =====
-- `internal/vote`: the results of votes.
pub mod Service
pub mod Tally
pub mod Cutoff
