-- ===== src/Protocol/Records.antt =====
-- The message structs that no modelled service reads the fields of, from `pkg/protocol/messages.go`.
use smart_contract.Prelude.{ℕ, Bytes}
use smart_contract.Protocol.Requests.{Float32}

pub record Reconciliation : Type 0 where
  pub header : Bytes
  pub protocol_id : ℕ
  pub action_prefix : Bytes
  pub version : ℕ
  pub asset_type : Bytes
  pub asset_id : Bytes
  pub ref_txn_id : Bytes
  pub target_address_qty : ℕ
  pub timestamp : ℕ
  pub message : Bytes

pub record BallotCounted : Type 0 where
  pub header : Bytes
  pub protocol_id : ℕ
  pub action_prefix : Bytes
  pub version : ℕ
  pub asset_type : Bytes
  pub asset_id : Bytes
  pub vote_txn_id : Bytes
  pub vote : Bytes
  pub timestamp : ℕ

pub record Result : Type 0 where
  pub header : Bytes
  pub protocol_id : ℕ
  pub action_prefix : Bytes
  pub version : ℕ
  pub asset_type : Bytes
  pub asset_id : Bytes
  pub vote_type : ℕ
  pub vote_txn_id : Bytes
  pub timestamp : ℕ
  pub option1_tally : ℕ
  pub option2_tally : ℕ
  pub option3_tally : ℕ
  pub option4_tally : ℕ
  pub option5_tally : ℕ
  pub option6_tally : ℕ
  pub option7_tally : ℕ
  pub option8_tally : ℕ
  pub option9_tally : ℕ
  pub option10_tally : ℕ
  pub option11_tally : ℕ
  pub option12_tally : ℕ
  pub option13_tally : ℕ
  pub option14_tally : ℕ
  pub option15_tally : ℕ
  pub result : Bytes

pub record TextMessage : Type 0 where
  pub header : Bytes
  pub protocol_id : ℕ
  pub action_prefix : Bytes
  pub version : ℕ
  pub timestamp : ℕ
  pub message_type : Bytes
  pub message : Bytes

pub record Establishment : Type 0 where
  pub header : Bytes
  pub protocol_id : ℕ
  pub action_prefix : Bytes
  pub version : ℕ
  pub registrar : Bytes
  pub register_type : ℕ
  pub kyc_jurisdiction : Bytes
  pub dob : ℕ
  pub country_of_residence : Bytes
  pub supporting_documentation_hash : Bytes
  pub message : Bytes

pub record Addition : Type 0 where
  pub header : Bytes
  pub protocol_id : ℕ
  pub action_prefix : Bytes
  pub version : ℕ
  pub sublist : Bytes
  pub kyc : ℕ
  pub kyc_jurisdiction : Bytes
  pub dob : ℕ
  pub country_of_residence : Bytes
  pub supporting_documentation_hash : Bytes
  pub message : Bytes

pub record Alteration : Type 0 where
  pub header : Bytes
  pub protocol_id : ℕ
  pub action_prefix : Bytes
  pub version : ℕ
  pub sublist : Bytes
  pub kyc : ℕ
  pub kyc_jurisdiction : Bytes
  pub dob : ℕ
  pub country_of_residence : Bytes
  pub supporting_documentation_hash : Bytes
  pub message : Bytes

pub record Removal : Type 0 where
  pub header : Bytes
  pub protocol_id : ℕ
  pub action_prefix : Bytes
  pub version : ℕ
  pub supporting_documentation_hash : Bytes
  pub message : Bytes

pub record Swap : Type 0 where
  pub header : Bytes
  pub protocol_id : ℕ
  pub action_prefix : Bytes
  pub version : ℕ
  pub party1_asset_type : Bytes
  pub party1_asset_id : Bytes
  pub party1_token_qty : ℕ
  pub offer_valid_until : ℕ
  pub party2_asset_type : Bytes
  pub party2_asset_id : Bytes
  pub party2_token_qty : ℕ
  pub exchange_fee_currency : Bytes
  pub exchange_fee_var : Float32
  pub exchange_fee_fixed : Float32
  pub exchange_fee_address : Bytes
