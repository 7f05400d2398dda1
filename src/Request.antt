-- ===== src/Request.antt =====
-- `internal/request`: the request service and its handlers.
pub mod Defs
pub mod Transfer
pub mod Orders
pub mod Formation
pub mod Voting
pub mod Service
