-- ===== src/Protocol/Requests.antt =====
-- The request messages, from `pkg/protocol/messages.go`: each struct with all its fields. The embedded
-- `BaseMessage` has none.
use smart_contract.Prelude.{ℕ, Bytes}

-- A `float32` is its IEEE 754 bit pattern; the fields of this type are copied, and one is given
-- to the conversions that are parameters of the exchange.
abbrev pub Float32 : Type 0
Float32 = ℕ

pub record AssetDefinition : Type 0 where
  pub header : Bytes
  pub protocol_id : ℕ
  pub action_prefix : Bytes
  pub version : ℕ
  pub asset_type : Bytes
  pub asset_id : Bytes
  pub authorization_flags : Bytes
  pub voting_system : ℕ
  pub vote_multiplier : ℕ
  pub qty : ℕ
  pub contract_fee_currency : Bytes
  pub contract_fee_var : Float32
  pub contract_fee_fixed : Float32
  pub payload : Bytes

pub record AssetModification : Type 0 where
  pub header : Bytes
  pub protocol_id : ℕ
  pub action_prefix : Bytes
  pub version : ℕ
  pub asset_type : Bytes
  pub asset_id : Bytes
  pub asset_revision : ℕ
  pub authorization_flags : Bytes
  pub voting_system : ℕ
  pub vote_multiplier : ℕ
  pub qty : ℕ
  pub contract_fee_currency : Bytes
  pub contract_fee_var : Float32
  pub contract_fee_fixed : Float32
  pub payload : Bytes

pub record ContractOffer : Type 0 where
  pub header : Bytes
  pub protocol_id : ℕ
  pub action_prefix : Bytes
  pub version : ℕ
  pub contract_name : Bytes
  pub contract_file_hash : Bytes
  pub governing_law : Bytes
  pub jurisdiction : Bytes
  pub contract_expiration : ℕ
  pub uri : Bytes
  pub issuer_id : Bytes
  pub issuer_type : ℕ
  pub contract_operator_id : Bytes
  pub authorization_flags : Bytes
  pub voting_system : ℕ
  pub initiative_threshold : Float32
  pub initiative_threshold_currency : Bytes
  pub restricted_qty : ℕ

pub record ContractAmendment : Type 0 where
  pub header : Bytes
  pub protocol_id : ℕ
  pub action_prefix : Bytes
  pub version : ℕ
  pub contract_name : Bytes
  pub contract_file_hash : Bytes
  pub governing_law : Bytes
  pub jurisdiction : Bytes
  pub contract_expiration : ℕ
  pub uri : Bytes
  pub contract_revision : ℕ
  pub issuer_id : Bytes
  pub issuer_type : ℕ
  pub contract_operator_id : Bytes
  pub authorization_flags : Bytes
  pub voting_system : ℕ
  pub initiative_threshold : Float32
  pub initiative_threshold_currency : Bytes
  pub restricted_qty : ℕ

pub record Order : Type 0 where
  pub header : Bytes
  pub protocol_id : ℕ
  pub action_prefix : Bytes
  pub version : ℕ
  pub asset_type : Bytes
  pub asset_id : Bytes
  pub compliance_action : ℕ
  pub target_address : Bytes
  pub deposit_address : Bytes
  pub supporting_evidence_hash : Bytes
  pub qty : ℕ
  pub expiration : ℕ
  pub message : Bytes

pub record Send : Type 0 where
  pub header : Bytes
  pub protocol_id : ℕ
  pub action_prefix : Bytes
  pub version : ℕ
  pub asset_type : Bytes
  pub asset_id : Bytes
  pub token_qty : ℕ

pub record Exchange : Type 0 where
  pub header : Bytes
  pub protocol_id : ℕ
  pub action_prefix : Bytes
  pub version : ℕ
  pub party1_asset_type : Bytes
  pub party1_asset_id : Bytes
  pub party1_token_qty : ℕ
  pub offer_valid_until : ℕ
  pub exchange_fee_currency : Bytes
  pub exchange_fee_var : Float32
  pub exchange_fee_fixed : Float32
  pub exchange_fee_address : Bytes

pub record Initiative : Type 0 where
  pub header : Bytes
  pub protocol_id : ℕ
  pub action_prefix : Bytes
  pub version : ℕ
  pub asset_type : Bytes
  pub asset_id : Bytes
  pub vote_type : ℕ
  pub vote_options : Bytes
  pub vote_max : ℕ
  pub vote_logic : ℕ
  pub proposal_description : Bytes
  pub proposal_document_hash : Bytes
  pub vote_cut_off_timestamp : ℕ

pub record Referendum : Type 0 where
  pub header : Bytes
  pub protocol_id : ℕ
  pub action_prefix : Bytes
  pub version : ℕ
  pub asset_type : Bytes
  pub asset_id : Bytes
  pub vote_type : ℕ
  pub vote_options : Bytes
  pub vote_max : ℕ
  pub vote_logic : ℕ
  pub proposal_description : Bytes
  pub proposal_document_hash : Bytes
  pub vote_cut_off_timestamp : ℕ

pub record BallotCast : Type 0 where
  pub header : Bytes
  pub protocol_id : ℕ
  pub action_prefix : Bytes
  pub version : ℕ
  pub asset_type : Bytes
  pub asset_id : Bytes
  pub vote_txn_id : Bytes
  pub vote : Bytes
