-- ===== src/Spv.antt =====
-- `pkg/spvnode`: the node that follows the headers of the chain and hands blocks and transactions on.
pub mod Action
pub mod Blocks
pub mod Service
pub mod Handlers
pub mod Peer
pub mod Kept
pub mod Chain
