-- ===== src/Tests/Messages.antt =====
-- The messages of the tests.
use smart_contract.Prelude.{ascii, [], ◌∷◌}
use smart_contract.Protocol.{
  Send, Exchange, Order, ContractOffer, ContractAmendment, AssetDefinition, AssetModification,
  Freeze, Thaw, VoteMessage, new_freeze, new_thaw, new_vote_message,
}
use smart_contract.Protocol.Compliance
use smart_contract.Tests.Base.{alice, bob, token}

abbrev pub send : Send
send = record {
  header = [];
  protocol_id = 0;
  action_prefix = [];
  version = 0;
  asset_type = [];
  asset_id = token;
  token_qty = 4;
}

abbrev pub exchange : Exchange
exchange = record {
  header = [];
  protocol_id = 0;
  action_prefix = [];
  version = 0;
  party1_asset_type = [];
  party1_asset_id = token;
  party1_token_qty = 4;
  offer_valid_until = 0;
  exchange_fee_currency = [];
  exchange_fee_var = 0;
  exchange_fee_fixed = 7;
  exchange_fee_address = ascii "exchange";
}

abbrev pub confiscation : Order
confiscation = record {
  header = [];
  protocol_id = 0;
  action_prefix = [];
  version = 0;
  asset_type = [];
  asset_id = token;
  compliance_action = Compliance.confiscation;
  target_address = alice;
  deposit_address = bob;
  supporting_evidence_hash = [];
  qty = 12;
  expiration = 0;
  message = [];
}

abbrev pub self_confiscation : Order
self_confiscation = record {
  header = [];
  protocol_id = 0;
  action_prefix = [];
  version = 0;
  asset_type = [];
  asset_id = token;
  compliance_action = Compliance.confiscation;
  target_address = alice;
  deposit_address = alice;
  supporting_evidence_hash = [];
  qty = 12;
  expiration = 0;
  message = [];
}

abbrev pub offer : ContractOffer
offer = record {
  header = [];
  protocol_id = 0;
  action_prefix = [];
  version = 0;
  contract_name = ascii "Tests";
  contract_file_hash = 0xab ∷ [];
  governing_law = [];
  jurisdiction = [];
  contract_expiration = 0;
  uri = [];
  issuer_id = [];
  issuer_type = 0;
  contract_operator_id = [];
  authorization_flags = [];
  voting_system = 0;
  initiative_threshold = 0;
  initiative_threshold_currency = [];
  restricted_qty = 2;
}

abbrev pub amendment : ContractAmendment
amendment = record {
  header = [];
  protocol_id = 0;
  action_prefix = [];
  version = 0;
  contract_name = ascii "Tests";
  contract_file_hash = [];
  governing_law = [];
  jurisdiction = [];
  contract_expiration = 0;
  uri = [];
  contract_revision = 0;
  issuer_id = [];
  issuer_type = 0;
  contract_operator_id = [];
  authorization_flags = [];
  voting_system = 0;
  initiative_threshold = 0;
  initiative_threshold_currency = [];
  restricted_qty = 3;
}

abbrev pub definition : AssetDefinition
definition = record {
  header = [];
  protocol_id = 0;
  action_prefix = [];
  version = 0;
  asset_type = [];
  asset_id = ascii "gold";
  authorization_flags = [];
  voting_system = 0;
  vote_multiplier = 0;
  qty = 100;
  contract_fee_currency = [];
  contract_fee_var = 0;
  contract_fee_fixed = 0;
  payload = [];
}

abbrev pub modification : AssetModification
modification = record {
  header = [];
  protocol_id = 0;
  action_prefix = [];
  version = 0;
  asset_type = [];
  asset_id = token;
  asset_revision = 0;
  authorization_flags = [];
  voting_system = 0;
  vote_multiplier = 0;
  qty = 20;
  contract_fee_currency = [];
  contract_fee_var = 0;
  contract_fee_fixed = 0;
  payload = [];
}

abbrev pub freeze : Freeze
freeze = record new_freeze { asset_id = token; expiration = 1000 }

abbrev pub thaw : Thaw
thaw = record new_thaw { asset_id = token }

abbrev pub vote_message : VoteMessage
vote_message = record new_vote_message { asset_id = token; vote_cut_off_timestamp = 1000 }
