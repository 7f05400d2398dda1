-- ===== src/Tests.antt =====
-- Runs of the model, and the properties at concrete inputs.
mod Base
mod Messages
mod Transfers
mod Confiscations
mod Exchanges
mod Freezing
mod Issuing
mod Voting
mod Node
mod Offers
mod Building
mod Store
mod Codec
mod Spv
