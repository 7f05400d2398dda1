-- ===== src/Tests/Transfers.antt =====
-- Sends at concrete inputs.
use smart_contract.Prelude.{
  ◌+◌, ◌<◌, ◌^◌, Bytes, bytes_eq, bytes_eq-ne, bytes_key, none, some, List, [], ◌∷◌, ◌≡◌, refl, ◌≢◌,
  ok, arith,
}
use smart_contract.Prelude.Dict.{lookup}
use smart_contract.Protocol.{Message}
use smart_contract.TxBuilder.{TxOutput, pay_to}
use smart_contract.Request.Defs.{ContractRequest, ContractResponse}
use smart_contract.Request.Transfer.{handle_send}
use smart_contract.Response.Service.{run_handler}
use smart_contract.State.{Contract}
use smart_contract.Inspector.{create_transaction}
use smart_contract.Validator.Transfer.{validate_send, in_force}
use smart_contract.Ledger.Balance.{balance_of, supply_of}
use smart_contract.Ledger.Transfers.{SendReady, send_conserves}
use smart_contract.Ledger.Acceptance.{Settled, accepted_send-Settled}
use smart_contract.Tests.Base.{
  plain, Tx, alice, bob, agent, token, fee, held, shares, assets, contract, sent, asked,
}
use smart_contract.Tests.Messages.{send}

-- Alice sends 4 of her 10 tokens to Bob.
abbrev receivers : List (TxOutput Bytes)
receivers = pay_to agent 2000 ∷ pay_to bob 546 ∷ []

abbrev request : ContractRequest Bytes Tx
request = asked (alice ∷ []) receivers (Message.send send)

valid :
    validate_send 100 (sent (alice ∷ []) receivers (Message.send send)) contract (Message.send send)
    ≡ ok tt
unfolding validate_send lookup bytes_eq in_force
valid = refl

accepted_send-Settled_example : Settled fee 100 200 [] request send
accepted_send-Settled_example =
    accepted_send-Settled fee 100 200 [] (sent (alice ∷ []) receivers (Message.send send)) request
      send agent refl refl refl refl valid

-- `alice` is not `bob`.
pub alice_ne_bob : alice ≢ bob
unfolding bytes_eq
alice_ne_bob = bytes_eq-ne alice bob refl

abbrev ready : SendReady plain request send
unfolding lookup bytes_eq
ready = record {
  asset = shares;
  assets = assets;
  holdings = held;
  party1 = record { address = alice; balance = 10; holding_status = none; created_at = 0 };
  sender = alice;
  receiver = bob;
  contract = agent;
  out0 = pay_to agent 2000;
  out1 = pay_to bob 546;
  others = [];
  senders = [];
  is_send = refl;
  has_assets = refl;
  has_asset = refl;
  has_holdings = refl;
  sends = refl;
  holds = refl;
  covers = omega arith;
  receives = refl;
  reaches = refl;
  apart = alice_ne_bob;
  answers = refl;
}

fits : balance_of contract token bob + 4 < 2 ^ 64
unfolding lookup bytes_eq
fits = omega arith

send_conserves_example :
    (response : ContractResponse Bytes) × (reply : Message) × (after : Contract) × (handle_send fee
        100 request
      ≡ ok response)
    × (response.message ≡ some reply)
    × (run_handler {MsgTx = Tx} 100 200
          (create_transaction [] response.outs response.message)
          reply
          contract
        ≡ ok after)
    × (supply_of after token ≡ supply_of contract token)
unfolding ready
send_conserves_example = send_conserves fee 100 200 ready [] fits
