-- ===== src/TxBuilder.antt =====
-- `pkg/txbuilder`: outputs, spendable outputs, and the transaction that spends them.
pub mod Output
pub mod Plan
pub mod Change
pub mod AddressSet
unfoldable pub use Output.*
