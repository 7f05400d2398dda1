-- ===== src/Tests/Offers.antt =====
-- Offers and rejections at concrete inputs.
use smart_contract.Prelude.{
  ◌≤◌, Bytes, bytes_eq, bytes_key, ltb, if◌then◌else◌, none, some, List, [], ◌∷◌, ◌≡◌, refl, Error,
  ok, err, ◌>>=◌, arith, ascii,
}
use smart_contract.Prelude.Dict.{Dict, lookup}
use smart_contract.Protocol.{Message, limit_default, dust_limit}
use smart_contract.Protocol.RejectionCode
use smart_contract.TxBuilder.{
  pay_to, Utxo, for_address, public_address, hash_address, utxos_value, value_from,
}
use smart_contract.State.{Contract, new_contract, known_tx}
use smart_contract.Inspector.{Transaction}
use smart_contract.Request.Formation.{amendment_formation}
use smart_contract.Response.Service.{run_handler}
use smart_contract.Response.Handlers.{contract_formation_handler}
use smart_contract.Response.Frame.{known_tx-run_handler}
use smart_contract.State.{edit_contract}
use smart_contract.Validator.Service.{Verdict, build_rejection_from_code, check_and_fetch}
use smart_contract.Validator.Offers.{offer_to_contract, offer_accepted}
use smart_contract.Tests.Base.{plain, plain_wire, Tx, wallet, state, contract, request_tx}
use smart_contract.Tests.Messages.{offer, amendment}
use smart_contract.Tests.Node.{alice, agent, script_of}

abbrev received : List Utxo
received =
    record { hash = ascii "offer"; index = 0; pk_script = script_of agent; value = 2000 } ∷ []

abbrev offer_request : Transaction Bytes Tx
offer_request = record {
  hash = [];
  input_addrs = alice ∷ [];
  inputs = [];
  utxos = received;
  outputs = pay_to agent 2000 ∷ [];
  msg_tx = some request_tx;
  msg_proto = some (Message.contract_offer offer);
}

receives : for_address received agent ≡ ok received
unfolding for_address public_address hash_address bytes_eq
receives = refl

pays : limit_default ≤ utxos_value received
unfolding utxos_value value_from
pays = omega arith

abbrev occupied : Dict Bytes Contract
occupied = (agent, contract) ∷ []

stored : state.read agent occupied ≡ ok contract
unfolding lookup bytes_eq
stored = refl

offer_to_contract_example : check_and_fetch state wallet 100 200 offer_request occupied ≡ (
    if ltb 2000 limit_default then err Error.insufficient_payment else (do
      tx ←
          wallet.build_tx agent received
            (pay_to alice dust_limit ∷ [])
            alice
            (some (Message.rejection (build_rejection_from_code RejectionCode.contract_exists)))
      ok (Verdict.reject_with tx)))
offer_to_contract_example =
    offer_to_contract state wallet 100 200 offer_request occupied offer refl refl refl refl contract
      stored receives refl

fresh : state.read agent [] ≡ err Error.contract_not_found
unfolding lookup
fresh = refl

offer_accepted_example :
    check_and_fetch state wallet 100 200 offer_request []
    ≡ ok (Verdict.accept (new_contract 200 agent alice none offer))
offer_accepted_example =
    offer_accepted state wallet 100 200 offer_request [] offer refl refl refl refl fresh refl
      receives pays

formed :
    run_handler 100 200 offer_request
      (Message.contract_formation (amendment_formation 1 amendment))
      contract
    ≡ ok (edit_contract contract (amendment_formation 1 amendment))
unfolding run_handler contract_formation_handler
formed = refl

known_tx-run_handler_example :
    known_tx (edit_contract contract (amendment_formation 1 amendment)) (ascii "request")
    ≡ known_tx contract (ascii "request")
known_tx-run_handler_example =
    known_tx-run_handler 100 200 offer_request
      (Message.contract_formation (amendment_formation 1 amendment)) contract formed
      (ascii "request")
