-- ===== src/Validator.antt =====
-- `internal/validator`: which requests are accepted.
pub mod Transfer
pub mod Formation
pub mod Service
pub mod Acceptance
pub mod Offers
