-- ===== src/Request/Formation.antt =====
-- `contract_offer_handler.go`, `contract_amendment_handler.go`, `asset_definition_handler.go` and
-- `asset_modification_handler.go`: what the issuer sends about the contract and its assets.
use smart_contract.Prelude.{
  ℕ, ◌+◌, ◌%◌, ◌^◌, none, some, List, [], ◌∷◌, Outcome, Error, ok, ◌>>=◌, index, or_err,
}
use smart_contract.Protocol.{
  Message, AssetCreation, AssetDefinition, AssetModification, ContractFormation, ContractOffer,
  ContractAmendment, new_contract_formation, new_asset_creation, dust_limit,
}
use smart_contract.Btcutil.{Btcutil}
use smart_contract.TxBuilder.{TxOutput, pay_to}
use smart_contract.State.{contract_address}
use smart_contract.Request.Defs.{
  Fee, ContractRequest, ContractResponse, with_fee, as_contract_offer, as_contract_amendment,
  as_asset_definition, as_asset_modification,
}

unfoldable pub offer_formation : ContractOffer → ContractFormation
offer_formation co = record new_contract_formation {
  version = co.version;
  contract_name = co.contract_name;
  contract_file_hash = co.contract_file_hash;
  governing_law = co.governing_law;
  jurisdiction = co.jurisdiction;
  contract_expiration = co.contract_expiration;
  uri = co.uri;
  contract_revision = 0;
  issuer_id = co.issuer_id;
  issuer_type = co.issuer_type;
  contract_operator_id = co.contract_operator_id;
  authorization_flags = co.authorization_flags;
  voting_system = co.voting_system;
  initiative_threshold = co.initiative_threshold;
  initiative_threshold_currency = co.initiative_threshold_currency;
  restricted_qty = co.restricted_qty;
}

-- The first argument is the new revision.
unfoldable pub amendment_formation : ℕ → ContractAmendment → ContractFormation
amendment_formation new_revision ca = record new_contract_formation {
  version = ca.version;
  contract_name = ca.contract_name;
  contract_file_hash = ca.contract_file_hash;
  governing_law = ca.governing_law;
  jurisdiction = ca.jurisdiction;
  contract_expiration = ca.contract_expiration;
  uri = ca.uri;
  contract_revision = new_revision;
  issuer_id = ca.issuer_id;
  issuer_type = ca.issuer_type;
  contract_operator_id = ca.contract_operator_id;
  authorization_flags = ca.authorization_flags;
  voting_system = ca.voting_system;
  initiative_threshold = ca.initiative_threshold;
  initiative_threshold_currency = ca.initiative_threshold_currency;
  restricted_qty = ca.restricted_qty;
}

unfoldable pub definition_creation : AssetDefinition → AssetCreation
definition_creation ad = record new_asset_creation {
  asset_type = ad.asset_type;
  asset_id = ad.asset_id;
  asset_revision = 0;
  authorization_flags = ad.authorization_flags;
  voting_system = ad.voting_system;
  vote_multiplier = ad.vote_multiplier;
  qty = ad.qty;
  contract_fee_currency = ad.contract_fee_currency;
  contract_fee_var = ad.contract_fee_var;
  contract_fee_fixed = ad.contract_fee_fixed;
  payload = ad.payload;
}

-- The revision is a `uint16`.
unfoldable pub modification_creation : AssetModification → AssetCreation
modification_creation am = record new_asset_creation {
  asset_type = am.asset_type;
  asset_id = am.asset_id;
  asset_revision = (am.asset_revision + 1) % 2 ^ 16;
  authorization_flags = am.authorization_flags;
  voting_system = am.voting_system;
  vote_multiplier = am.vote_multiplier;
  qty = am.qty;
  contract_fee_currency = am.contract_fee_currency;
  contract_fee_var = am.contract_fee_var;
  contract_fee_fixed = am.contract_fee_fixed;
  payload = am.payload;
}

module _ {Addr MsgTx : Type 0} ⦃b : Btcutil Addr⦄ where
  -- `buildOutputs`, which the four handlers have in the same words.
  unfoldable pub build_issuer_outputs :
      Fee Addr → ContractRequest Addr MsgTx → Outcome (List (TxOutput Addr))
  build_issuer_outputs fee r = do
    contract ← or_err (contract_address r.contract) Error.external
    sender ← index r.senders 0
    ok (with_fee fee (pay_to contract dust_limit ∷ pay_to sender dust_limit ∷ []))

  -- The response that a handler returns once it has its message.
  unfoldable pub respond :
      Fee Addr → ContractRequest Addr MsgTx → Message → Outcome (ContractResponse Addr)
  unfolding build_issuer_outputs
  respond fee r reply = do
    outputs ← build_issuer_outputs fee r
    ok (record {
      contract = r.contract;
      message = some reply;
      outs = outputs;
      change_address = none;
    })

  unfoldable pub handle_contract_offer :
      Fee Addr → ContractRequest Addr MsgTx → Outcome (ContractResponse Addr)
  unfolding respond
  handle_contract_offer fee r = do
    co ← or_err (as_contract_offer r.m) Error.wrong_type
    respond fee r (Message.contract_formation (offer_formation co))

  -- The revision is a `uint16`.
  unfoldable pub handle_contract_amendment :
      Fee Addr → ContractRequest Addr MsgTx → Outcome (ContractResponse Addr)
  unfolding respond
  handle_contract_amendment fee r = do
    ca ← or_err (as_contract_amendment r.m) Error.wrong_type
    let new_revision = (r.contract.revision + 1) % 2 ^ 16
    respond fee r (Message.contract_formation (amendment_formation new_revision ca))

  unfoldable pub handle_asset_definition :
      Fee Addr → ContractRequest Addr MsgTx → Outcome (ContractResponse Addr)
  unfolding respond
  handle_asset_definition fee r = do
    ad ← or_err (as_asset_definition r.m) Error.wrong_type
    respond fee r (Message.asset_creation (definition_creation ad))

  unfoldable pub handle_asset_modification :
      Fee Addr → ContractRequest Addr MsgTx → Outcome (ContractResponse Addr)
  unfolding respond
  handle_asset_modification fee r = do
    am ← or_err (as_asset_modification r.m) Error.wrong_type
    respond fee r (Message.asset_creation (modification_creation am))
