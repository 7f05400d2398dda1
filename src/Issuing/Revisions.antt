-- ===== src/Issuing/Revisions.antt =====
-- Offers, amendments and modifications: what the contract and its assets say afterwards.
use smart_contract.Prelude.{
  ℕ, ◌+◌, ◌%◌, ◌^◌, Bytes, bytes_eq_iff, bytes_key, Option, none, some, List, [], ◌∷◌, ◌≡◌, refl,
  ok, arith, string_of_byte,
}
use smart_contract.Prelude.Dict.{Dict, get, lookup, insert, lookup-insert}
use smart_contract.Protocol.{
  Message, AssetModification, ContractAmendment, ContractOffer, dust_limit,
}
use smart_contract.Btcutil.{Btcutil}
use smart_contract.TxBuilder.{pay_to}
use smart_contract.State.{Asset, Contract, edit_asset, edit_contract, new_contract}
use smart_contract.Inspector.{Transaction}
use smart_contract.Request.Defs.{Fee, ContractRequest, ContractResponse, with_fee}
use smart_contract.Request.Formation.{
  offer_formation, amendment_formation, modification_creation, handle_contract_amendment,
  handle_asset_modification,
}
use smart_contract.Response.Handlers.{asset_creation_handler, contract_formation_handler}
use smart_contract.Response.Service.{run_handler}
use smart_contract.Validator.Formation.{validate_asset_modification}

module _ {Addr MsgTx : Type 0} ⦃b : Btcutil Addr⦄ (fee : Fee Addr) (r : ContractRequest Addr MsgTx)
    {contract sender : Addr} {senders : List Addr}
    (answers : b.decode_address r.contract.id ≡ some contract)
    (sends : r.senders ≡ sender ∷ senders) where
  -- The response to a message of the issuer.
  abbrev pub issuer_response : Message → ContractResponse Addr
  issuer_response reply = record {
    contract = r.contract;
    message = some reply;
    outs = with_fee fee (pay_to contract dust_limit ∷ pay_to sender dust_limit ∷ []);
    change_address = none;
  }

  module _ (now nano : ℕ) (itx : Transaction Addr MsgTx) where
    -- An amendment is answered where the contract's identifier decodes and the request has a sender.
    -- Its formation leaves the contract with the next revision, modulo 2 ^ 16, and with the limit of
    -- the amendment; identifier, parties, assets, votes and hashes stay.
    pub amendment_bumps_revision :
        (m : ContractAmendment)
        → r.m ≡ Message.contract_amendment m
        → (let next = (r.contract.revision + 1) % 2 ^ 16 in
            let after = edit_contract r.contract (amendment_formation next m) in
            (handle_contract_amendment fee r
              ≡ ok (issuer_response (Message.contract_formation (amendment_formation next m))))
            × (run_handler now nano itx
                  (Message.contract_formation (amendment_formation next m))
                  r.contract
                ≡ ok after)
            × (after.revision ≡ next)
            × (after.qty ≡ m.restricted_qty)
            × (after.id ≡ r.contract.id)
            × (after.issuer_address ≡ r.contract.issuer_address)
            × (after.operator_address ≡ r.contract.operator_address)
            × (after.assets ≡ r.contract.assets)
            × (after.votes ≡ r.contract.votes)
            × (after.hashes ≡ r.contract.hashes))
    unfolding handle_contract_amendment run_handler contract_formation_handler edit_contract
        amendment_formation
    amendment_bumps_revision m is_amendment = (
      ground (arith, is_amendment, answers, sends),
      refl,
      refl,
      refl,
      refl,
      refl,
      refl,
      refl,
      refl,
      refl,
    )

    -- An asset modification of an asset that exists is answered and carried out, and leaves the
    -- asset's revision as it was: where the validator accepted the modification before, it accepts the
    -- same modification again afterwards.
    pub modification_keeps_revision :
        (m : AssetModification) {d : Dict Bytes Asset} (asset : Asset)
        → r.m ≡ Message.asset_modification m
        → r.contract.assets ≡ some d
        → lookup m.asset_id d ≡ some asset
        → asset.id ≡ m.asset_id
        → validate_asset_modification r.contract (Message.asset_modification m) ≡ ok tt
        → (let edited = edit_asset asset (modification_creation m) in
            let after : Contract = record r.contract {
              assets = some (insert m.asset_id edited d);
            } in
            (handle_asset_modification fee r
              ≡ ok (issuer_response (Message.asset_creation (modification_creation m))))
            × (run_handler now nano itx
                  (Message.asset_creation (modification_creation m))
                  r.contract
                ≡ ok after)
            × (get m.asset_id after.assets ≡ some edited)
            × (edited.revision ≡ asset.revision)
            × (validate_asset_modification after (Message.asset_modification m) ≡ ok tt))
    unfolding handle_asset_modification run_handler asset_creation_handler edit_asset
        modification_creation validate_asset_modification
    modification_keeps_revision m {d} asset is_modification made found named valid =
        let edited = edit_asset asset (modification_creation m) in
        let stored = lookup-insert m.asset_id m.asset_id edited d in
        let same = (bytes_eq_iff m.asset_id m.asset_id).1 refl in
        (
          ground (arith, is_modification, answers, sends),
          ground (arith, made, found, named),
          ground (arith, stored, same),
          refl,
          ground (arith, stored, same, made, found, valid),
        )

module _ {Addr MsgTx : Type 0} ⦃b : Btcutil Addr⦄ (now nano : ℕ)
    (itx : Transaction Addr MsgTx) where
  -- The formation that answers an offer leaves the contract that `NewContract` made from the same
  -- offer, but for three fields: the hash of its file is the raw bytes and not their hexadecimal text,
  -- and the texts of issuer type and voting system are those of their byte also where it is 0.
  pub formation-new_contract :
      (at : ℕ) (contract issuer : Addr) (operator : Option Addr) (co : ContractOffer)
      → run_handler now nano itx
          (Message.contract_formation (offer_formation co))
          (new_contract at contract issuer operator co)
        ≡ ok (record (new_contract at contract issuer operator co) {
          contract_file_hash = co.contract_file_hash;
          issuer_type = string_of_byte co.issuer_type;
          voting_system = string_of_byte co.voting_system;
        })
  unfolding run_handler contract_formation_handler new_contract edit_contract offer_formation
  formation-new_contract at contract issuer operator co = refl
