-- ===== src/State.antt =====
-- `internal/app/state`: the data of a contract and the interface that stores it.
pub mod Holdings
pub mod Assets
pub mod Votes
pub mod Contracts
unfoldable pub use Holdings.*
unfoldable pub use Assets.*
unfoldable pub use Votes.*
unfoldable pub use Contracts.*
