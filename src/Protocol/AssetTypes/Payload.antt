-- ===== src/Protocol/AssetTypes/Payload.antt =====
-- The payload of an asset message: what is written for a common share is read back.
use smart_contract.Prelude.{◌≡◌, ascii, ◌≢◌, err, unknown_asset_type, arith, bytes_eq_iff}
use smart_contract.Protocol.Requests.{AssetDefinition}
use smart_contract.Protocol.Codec.Interface
use smart_contract.Protocol.AssetTypes.{asset_definition_payload, new_payload_message}

-- For another asset type there is an error.
pub asset_definition_payload_unknown :
    (m : AssetDefinition)
    → m.asset_type ≢ ascii "SHC"
    → asset_definition_payload m ≡ err unknown_asset_type
unfolding asset_definition_payload new_payload_message
asset_definition_payload_unknown m other = ground (arith, bytes_eq_iff m.asset_type (ascii "SHC"))
