-- ===== src/Response.antt =====
-- `internal/response`: how a response changes the contract.
pub mod Handlers
pub mod Service
pub mod Frame
