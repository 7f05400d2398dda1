-- ===== src/Tests/Issuing.antt =====
-- What an issuer does, at concrete inputs.
use smart_contract.Prelude.{
  Bytes, bytes_eq, bytes_key, if◌then◌else◌, none, some, [], ◌∷◌, ◌≡◌, refl, ok, arith,
  string_of_byte, ascii,
}
use smart_contract.Prelude.Dict.{get, lookup, insert}
use smart_contract.Protocol.{Message, ContractAmendment}
use smart_contract.TxBuilder.{pay_to}
use smart_contract.State.{Asset, Contract, edit_asset, edit_contract, new_contract}
use smart_contract.Inspector.{Transaction}
use smart_contract.Request.Defs.{ContractRequest}
use smart_contract.Request.Formation.{
  offer_formation, amendment_formation, definition_creation, modification_creation,
  handle_contract_amendment, handle_asset_modification,
}
use smart_contract.Response.Service.{run_handler}
use smart_contract.Validator.Formation.{
  validate_asset_definition, validate_asset_modification, validate_contract_amendment,
}
use smart_contract.Issuing.Limits.{
  IsWithin, with_issued, issued, amended, definition_keeps_limit, amendment_keeps_limit,
  amendment_breaks_limit,
}
use smart_contract.Issuing.Revisions.{
  issuer_response, amendment_bumps_revision, modification_keeps_revision, formation-new_contract,
}
use smart_contract.Tests.Base.{
  plain, Tx, alice, agent, token, fee, shares, assets, contract, sent, asked,
}
use smart_contract.Tests.Messages.{definition, amendment, modification, offer}

abbrev response : Message → Transaction Bytes Tx
response m = sent [] (pay_to agent 546 ∷ pay_to alice 546 ∷ []) m

abbrev creation : Transaction Bytes Tx
creation = response (Message.asset_creation (definition_creation definition))

accepts_definition :
    validate_asset_definition contract (Message.asset_definition definition) ≡ ok tt
unfolding validate_asset_definition lookup bytes_eq
accepts_definition = refl

definition_keeps_limit_example :
    (run_handler 100 200 creation (Message.asset_creation (definition_creation definition)) contract
      ≡ ok (with_issued 100 200 creation contract definition alice assets))
    × ((key : Bytes)
        → get key (with_issued 100 200 creation contract definition alice assets).assets ≡ (
            if bytes_eq key definition.asset_id
            then some (issued 100 200 creation contract definition alice)
            else get key contract.assets))
    × IsWithin (with_issued 100 200 creation contract definition alice assets)
definition_keeps_limit_example =
    definition_keeps_limit 100 200 creation contract definition accepts_definition refl refl refl

accepts_amendment :
    validate_contract_amendment contract (Message.contract_amendment amendment) ≡ ok tt
unfolding validate_contract_amendment
accepts_amendment = refl

abbrev formation : Transaction Bytes Tx
formation = response (Message.contract_formation (amendment_formation 1 amendment))

amendment_keeps_limit_example :
    (run_handler 100 200 formation
        (Message.contract_formation (amendment_formation 1 amendment))
        contract
      ≡ ok (amended 100 200 formation contract amendment 1))
    × IsWithin (amended 100 200 formation contract amendment 1)
amendment_keeps_limit_example =
    amendment_keeps_limit 100 200 formation contract amendment 1 accepts_amendment (omega arith)
      (omega arith)

-- A contract with two assets and no limit, and an amendment that limits it to one.
abbrev unlimited : Contract
unlimited = record contract { qty = 0; assets = some ((ascii "gold", shares) ∷ assets) }

abbrev one_only : ContractAmendment
one_only = record amendment { restricted_qty = 1 }

abbrev one_only_formation : Transaction Bytes Tx
one_only_formation = response (Message.contract_formation (amendment_formation 1 one_only))

amendment_breaks_limit_example :
    (validate_contract_amendment unlimited (Message.contract_amendment one_only) ≡ ok tt)
    × (run_handler 100 200 one_only_formation
          (Message.contract_formation (amendment_formation 1 one_only))
          unlimited
        ≡ ok (amended 100 200 one_only_formation unlimited one_only 1))
    × (¬ IsWithin (amended 100 200 one_only_formation unlimited one_only 1))
amendment_breaks_limit_example =
    amendment_breaks_limit 100 200 one_only_formation unlimited one_only 1 refl (omega arith)
      (omega arith)

abbrev issuer_request : Message → ContractRequest Bytes Tx
issuer_request m = asked (alice ∷ []) (pay_to agent 2000 ∷ []) m

abbrev amendment_request : ContractRequest Bytes Tx
amendment_request = issuer_request (Message.contract_amendment amendment)

abbrev after_amendment : Contract
after_amendment = edit_contract contract (amendment_formation 1 amendment)

amendment_bumps_revision_example :
    (handle_contract_amendment fee amendment_request
      ≡ ok (
          issuer_response fee amendment_request {contract = agent} {sender = alice} refl refl
            (Message.contract_formation (amendment_formation 1 amendment))))
    × (run_handler 100 200 formation
          (Message.contract_formation (amendment_formation 1 amendment))
          contract
        ≡ ok after_amendment)
    × (after_amendment.revision ≡ 1)
    × (after_amendment.qty ≡ 3)
    × (after_amendment.id ≡ agent)
    × (after_amendment.issuer_address ≡ alice)
    × (after_amendment.operator_address ≡ [])
    × (after_amendment.assets ≡ some assets)
    × (after_amendment.votes ≡ some [])
    × (after_amendment.hashes ≡ [])
amendment_bumps_revision_example =
    amendment_bumps_revision fee amendment_request {contract = agent} {sender = alice} refl refl 100
      200 formation amendment refl

abbrev modification_request : ContractRequest Bytes Tx
modification_request = issuer_request (Message.asset_modification modification)

abbrev edited : Asset
edited = edit_asset shares (modification_creation modification)

abbrev after_modification : Contract
after_modification = record contract { assets = some (insert token edited assets) }

abbrev modified : Transaction Bytes Tx
modified = response (Message.asset_creation (modification_creation modification))

has_shares : lookup token assets ≡ some shares
unfolding lookup bytes_eq
has_shares = refl

accepts_modification :
    validate_asset_modification contract (Message.asset_modification modification) ≡ ok tt
unfolding validate_asset_modification lookup bytes_eq
accepts_modification = refl

modification_keeps_revision_example :
    (handle_asset_modification fee modification_request
      ≡ ok (
          issuer_response fee modification_request {contract = agent} {sender = alice} refl refl
            (Message.asset_creation (modification_creation modification))))
    × (run_handler 100 200 modified
          (Message.asset_creation (modification_creation modification))
          contract
        ≡ ok after_modification)
    × (get token after_modification.assets ≡ some edited)
    × (edited.revision ≡ 0)
    × (validate_asset_modification after_modification (Message.asset_modification modification)
        ≡ ok tt)
modification_keeps_revision_example =
    modification_keeps_revision fee modification_request {contract = agent} {sender = alice} refl
      refl 100 200 modified modification shares refl refl has_shares refl accepts_modification

abbrev offered : Transaction Bytes Tx
offered = response (Message.contract_formation (offer_formation offer))

formation-new_contract_example :
    run_handler 100 200 offered
      (Message.contract_formation (offer_formation offer))
      (new_contract 300 agent alice none offer)
    ≡ ok (record (new_contract 300 agent alice none offer) {
      contract_file_hash = 0xab ∷ [];
      issuer_type = string_of_byte 0;
      voting_system = string_of_byte 0;
    })
formation-new_contract_example = formation-new_contract 100 200 offered 300 agent alice none offer
