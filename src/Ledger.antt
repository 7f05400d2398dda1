-- ===== src/Ledger.antt =====
-- Token balances across the services: what a request and its response together do to the holdings.
pub mod Balance
pub mod Transfers
pub mod Acceptance
pub mod Freezing
pub mod Confiscation
pub mod Exchanges
