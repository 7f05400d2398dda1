-- ===== src/Protocol/RejectionCode.antt =====
-- The rejection codes, the `iota` constants of `pkg/protocol/rejection_types.go`.
use smart_contract.Prelude.{ℕ}

abbrev pub ok : ℕ
ok = 0

abbrev pub insufficient_value : ℕ
insufficient_value = 1

abbrev pub issuer_address : ℕ
issuer_address = 2

abbrev pub duplicate_asset_id : ℕ
duplicate_asset_id = 3

abbrev pub fixed_quantity : ℕ
fixed_quantity = 4

abbrev pub contract_exists : ℕ
contract_exists = 5

abbrev pub contract_not_dynamic : ℕ
contract_not_dynamic = 6

abbrev pub contract_qty_reduction : ℕ
contract_qty_reduction = 7

abbrev pub contract_auth_flags : ℕ
contract_auth_flags = 8

abbrev pub contract_expiration : ℕ
contract_expiration = 9

abbrev pub contract_update : ℕ
contract_update = 10

abbrev pub vote_exists : ℕ
vote_exists = 11

abbrev pub vote_not_found : ℕ
vote_not_found = 12

abbrev pub vote_closed : ℕ
vote_closed = 13

abbrev pub asset_not_found : ℕ
asset_not_found = 14

abbrev pub insufficient_assets : ℕ
insufficient_assets = 15

abbrev pub transfer_self : ℕ
transfer_self = 16

abbrev pub receiver_unspecified : ℕ
receiver_unspecified = 17

abbrev pub unknown_address : ℕ
unknown_address = 18

abbrev pub frozen : ℕ
frozen = 19

abbrev pub contract_revision : ℕ
contract_revision = 20

abbrev pub asset_revision : ℕ
asset_revision = 21
