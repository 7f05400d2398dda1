-- ===== src/Protocol/AssetTypes.antt =====
-- `pkg/protocol/asset_types.go` and `payload_message.go`, with the method `PayloadMessage` of the
-- three asset messages.
pub mod Coupon
pub mod MovieTicket
pub mod ShareCommon
pub mod TicketAdmission
pub mod Payload
use smart_contract.Prelude.{
  ◌≡◌, Bytes, ascii, bytes_eq, Outcome, ok, err, panic, ◌>>=◌, ◌>>◌, require, unknown_asset_type,
  external,
}
use smart_contract.Protocol.Requests.{AssetDefinition, AssetModification}
use smart_contract.Protocol.Responses.{AssetCreation}
use smart_contract.Protocol.Codec.{Written, written, failed}
use smart_contract.Protocol.Codec.Interface
use smart_contract.Protocol.AssetTypes.ShareCommon.{
  AssetTypeShareCommon, new_share_common, share_common_format,
}

-- `NewPayloadMessageFromCode`: of the asset types, only the common share is known.
unfoldable pub new_payload_message : Bytes → Outcome AssetTypeShareCommon
new_payload_message asset_type =
    require (bytes_eq asset_type (ascii "SHC")) unknown_asset_type >> ok new_share_common

-- `p.Write(payload)` and what follows it.
abbrev after_write : Written AssetTypeShareCommon → Outcome AssetTypeShareCommon
after_write (failed p) = err external
after_write (written n p) = ok p

abbrev read_payload : Bytes → Bytes → Outcome AssetTypeShareCommon
read_payload asset_type payload = new_payload_message asset_type >>= λ p.
    after_write (Interface.message_write share_common_format p payload)

-- `PayloadMessage`
unfoldable pub asset_definition_payload : AssetDefinition → Outcome AssetTypeShareCommon
asset_definition_payload m = read_payload m.asset_type m.payload

unfoldable pub asset_creation_payload : AssetCreation → Outcome AssetTypeShareCommon
asset_creation_payload m = read_payload m.asset_type m.payload

unfoldable pub asset_modification_payload : AssetModification → Outcome AssetTypeShareCommon
asset_modification_payload m = read_payload m.asset_type m.payload
