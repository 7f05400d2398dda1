-- ===== src/Protocol/Responses.antt =====
-- The response messages, from `pkg/protocol/messages.go`, with the values that their `New`
-- functions give; a field that such a function leaves out has its zero value.
use smart_contract.Prelude.{ℕ, Bytes, ascii, [], ◌∷◌}
use smart_contract.Protocol.Requests.{Float32}

abbrev pub protocol_id : ℕ
protocol_id = 0x20

pub record AssetCreation : Type 0 where
  pub header : Bytes
  pub protocol_id : ℕ
  pub action_prefix : Bytes
  pub version : ℕ
  pub asset_type : Bytes
  pub asset_id : Bytes
  pub asset_revision : ℕ
  pub authorization_flags : Bytes
  pub voting_system : ℕ
  pub vote_multiplier : ℕ
  pub qty : ℕ
  pub contract_fee_currency : Bytes
  pub contract_fee_var : Float32
  pub contract_fee_fixed : Float32
  pub payload : Bytes

abbrev pub new_asset_creation : AssetCreation
new_asset_creation = record {
  header = 0x6a ∷ 0x4c ∷ 0xdb ∷ [];
  protocol_id = protocol_id;
  action_prefix = ascii "A2";
  version = 0;
  asset_type = [];
  asset_id = [];
  asset_revision = 0;
  authorization_flags = [];
  voting_system = 0;
  vote_multiplier = 0;
  qty = 0;
  contract_fee_currency = [];
  contract_fee_var = 0;
  contract_fee_fixed = 0;
  payload = [];
}

pub record ContractFormation : Type 0 where
  pub header : Bytes
  pub protocol_id : ℕ
  pub action_prefix : Bytes
  pub version : ℕ
  pub contract_name : Bytes
  pub contract_file_hash : Bytes
  pub governing_law : Bytes
  pub jurisdiction : Bytes
  pub contract_expiration : ℕ
  pub uri : Bytes
  pub contract_revision : ℕ
  pub issuer_id : Bytes
  pub issuer_type : ℕ
  pub contract_operator_id : Bytes
  pub authorization_flags : Bytes
  pub voting_system : ℕ
  pub initiative_threshold : Float32
  pub initiative_threshold_currency : Bytes
  pub restricted_qty : ℕ

abbrev pub new_contract_formation : ContractFormation
new_contract_formation = record {
  header = 0x6a ∷ 0x4c ∷ 0xdc ∷ [];
  protocol_id = protocol_id;
  action_prefix = ascii "C2";
  version = 0;
  contract_name = [];
  contract_file_hash = [];
  governing_law = [];
  jurisdiction = [];
  contract_expiration = 0;
  uri = [];
  contract_revision = 0;
  issuer_id = [];
  issuer_type = 0;
  contract_operator_id = [];
  authorization_flags = [];
  voting_system = 0;
  initiative_threshold = 0;
  initiative_threshold_currency = [];
  restricted_qty = 0;
}

pub record Settlement : Type 0 where
  pub header : Bytes
  pub protocol_id : ℕ
  pub action_prefix : Bytes
  pub version : ℕ
  pub asset_type : Bytes
  pub asset_id : Bytes
  pub party1_token_qty : ℕ
  pub party2_token_qty : ℕ
  pub timestamp : ℕ

abbrev pub new_settlement : Settlement
new_settlement = record {
  header = 0x6a ∷ 0x42 ∷ [];
  protocol_id = protocol_id;
  action_prefix = ascii "T4";
  version = 0;
  asset_type = [];
  asset_id = [];
  party1_token_qty = 0;
  party2_token_qty = 0;
  timestamp = 0;
}

pub record Freeze : Type 0 where
  pub header : Bytes
  pub protocol_id : ℕ
  pub action_prefix : Bytes
  pub version : ℕ
  pub asset_type : Bytes
  pub asset_id : Bytes
  pub timestamp : ℕ
  pub qty : ℕ
  pub expiration : ℕ
  pub message : Bytes

abbrev pub new_freeze : Freeze
new_freeze = record {
  header = 0x6a ∷ 0x4c ∷ 0x7f ∷ [];
  protocol_id = protocol_id;
  action_prefix = ascii "E2";
  version = 0;
  asset_type = [];
  asset_id = [];
  timestamp = 0;
  qty = 0;
  expiration = 0;
  message = [];
}

pub record Thaw : Type 0 where
  pub header : Bytes
  pub protocol_id : ℕ
  pub action_prefix : Bytes
  pub version : ℕ
  pub asset_type : Bytes
  pub asset_id : Bytes
  pub timestamp : ℕ
  pub qty : ℕ
  pub message : Bytes

abbrev pub new_thaw : Thaw
new_thaw = record {
  header = 0x6a ∷ 0x4c ∷ 0x77 ∷ [];
  protocol_id = protocol_id;
  action_prefix = ascii "E3";
  version = 0;
  asset_type = [];
  asset_id = [];
  timestamp = 0;
  qty = 0;
  message = [];
}

pub record Confiscation : Type 0 where
  pub header : Bytes
  pub protocol_id : ℕ
  pub action_prefix : Bytes
  pub version : ℕ
  pub asset_type : Bytes
  pub asset_id : Bytes
  pub timestamp : ℕ
  pub targets_qty : ℕ
  pub deposits_qty : ℕ
  pub message : Bytes

abbrev pub new_confiscation : Confiscation
new_confiscation = record {
  header = 0x6a ∷ 0x4c ∷ 0x7f ∷ [];
  protocol_id = protocol_id;
  action_prefix = ascii "E4";
  version = 0;
  asset_type = [];
  asset_id = [];
  timestamp = 0;
  targets_qty = 0;
  deposits_qty = 0;
  message = [];
}

pub record VoteMessage : Type 0 where
  pub header : Bytes
  pub protocol_id : ℕ
  pub action_prefix : Bytes
  pub version : ℕ
  pub asset_type : Bytes
  pub asset_id : Bytes
  pub vote_type : ℕ
  pub vote_options : Bytes
  pub vote_max : ℕ
  pub vote_logic : ℕ
  pub proposal_description : Bytes
  pub proposal_document_hash : Bytes
  pub vote_cut_off_timestamp : ℕ
  pub timestamp : ℕ

abbrev pub new_vote_message : VoteMessage
new_vote_message = record {
  header = 0x6a ∷ 0x4c ∷ 0xbf ∷ [];
  protocol_id = protocol_id;
  action_prefix = ascii "G3";
  version = 0;
  asset_type = [];
  asset_id = [];
  vote_type = 0;
  vote_options = [];
  vote_max = 0;
  vote_logic = 0;
  proposal_description = [];
  proposal_document_hash = [];
  vote_cut_off_timestamp = 0;
  timestamp = 0;
}

pub record Rejection : Type 0 where
  pub header : Bytes
  pub protocol_id : ℕ
  pub action_prefix : Bytes
  pub version : ℕ
  pub timestamp : ℕ
  pub asset_type : Bytes
  pub asset_id : Bytes
  pub rejection_type : ℕ
  pub message : Bytes

abbrev pub new_rejection : Rejection
new_rejection = record {
  header = 0x6a ∷ 0x4c ∷ 0xdc ∷ [];
  protocol_id = protocol_id;
  action_prefix = ascii "M2";
  version = 0;
  timestamp = 0;
  asset_type = [];
  asset_id = [];
  rejection_type = 0;
  message = [];
}
