-- ===== src/Protocol.antt =====
-- `pkg/protocol`: message codes, message structs and rejection codes.
pub mod Codes
pub mod Codec
pub mod RejectionCode
pub mod Compliance
mod Requests
mod Records
mod Responses
mod Messages
pub mod OpReturn
pub mod AssetTypes
pub mod Forms
unfoldable pub use Codes.*
unfoldable pub use Requests.*
unfoldable pub use Responses.*
unfoldable pub use Records.*
unfoldable pub use Messages.*
