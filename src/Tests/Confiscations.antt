-- ===== src/Tests/Confiscations.antt =====
-- Confiscations at concrete inputs.
use smart_contract.Prelude.{
  ◌+◌, ◌<◌, ◌^◌, ◌%◌, Bytes, bytes_eq, bytes_key, none, some, [], ◌∷◌, ◌≡◌, refl, ok, arith,
}
use smart_contract.Prelude.Dict.{lookup, insert}
use smart_contract.Protocol.{Message, Order}
use smart_contract.TxBuilder.{pay_to}
use smart_contract.Request.Defs.{ContractRequest, ContractResponse}
use smart_contract.State.{Contract}
use smart_contract.Inspector.{create_transaction}
use smart_contract.Request.Orders.{handle_order, taken, confiscation_message}
use smart_contract.Response.Handlers.{clear_expired, holding_or_new}
use smart_contract.Response.Service.{run_handler}
use smart_contract.Ledger.Balance.{balance_of, supply_of}
use smart_contract.Ledger.Transfers.{moved}
use smart_contract.Ledger.Confiscation.{
  OrderReady, least, confiscation_response, confiscation_transaction, confiscated,
  confiscation_settles, confiscation_conserves, confiscation_mints,
}
use smart_contract.Tests.Base.{
  plain, Tx, alice, bob, agent, token, fee, held, shares, assets, contract, asked,
}
use smart_contract.Tests.Messages.{confiscation, self_confiscation}
use smart_contract.Tests.Transfers.{alice_ne_bob}

abbrev order_request : Order → ContractRequest Bytes Tx
order_request order = asked (alice ∷ []) (pay_to agent 2000 ∷ []) (Message.order order)

-- Alice holds 10 tokens and is to lose 12 to Bob.
abbrev ready : OrderReady plain (order_request confiscation) confiscation
unfolding lookup bytes_eq
ready = record {
  asset = shares;
  assets = assets;
  holdings = held;
  held = record { address = alice; balance = 10; holding_status = none; created_at = 0 };
  target = alice;
  deposit = bob;
  contract = agent;
  is_order = refl;
  has_assets = refl;
  has_asset = refl;
  has_holdings = refl;
  holds = refl;
  finds_target = refl;
  finds_deposit = refl;
  names_target = refl;
  names_deposit = refl;
  answers = refl;
}

confiscation_settles_example :
    (handle_order fee 100 (order_request confiscation)
      ≡ ok (confiscation_response fee 100 200 ready []))
    × (run_handler 100 200
          (confiscation_transaction fee 100 200 ready [])
          (Message.confiscation (confiscation_message 100 contract confiscation))
          contract
        ≡ ok (confiscated fee 100 200 ready []))
    × ((addr : Bytes)
        → balance_of (confiscated fee 100 200 ready []) token addr
          ≡ moved
              (least (balance_of contract token alice) 12)
              alice
              bob
              (balance_of contract token)
              addr)
unfolding ready
confiscation_settles_example = confiscation_settles fee 100 200 ready [] refl alice_ne_bob

fits : balance_of contract token bob + least (balance_of contract token alice) 12 < 2 ^ 64
unfolding lookup bytes_eq
fits = omega arith

confiscation_conserves_example :
    (response : ContractResponse Bytes) × (reply : Message) × (after : Contract) × (handle_order fee
        100
        (order_request confiscation)
      ≡ ok response)
    × (response.message ≡ some reply)
    × (run_handler {MsgTx = Tx} 100 200
          (create_transaction [] response.outs response.message)
          reply
          contract
        ≡ ok after)
    × (supply_of after token ≡ supply_of contract token)
unfolding ready
confiscation_conserves_example = confiscation_conserves fee 100 200 ready [] refl alice_ne_bob fits

-- Alice is to lose 12 tokens to herself.
abbrev self_ready : OrderReady plain (order_request self_confiscation) self_confiscation
unfolding lookup bytes_eq
self_ready = record {
  asset = shares;
  assets = assets;
  holdings = held;
  held = record { address = alice; balance = 10; holding_status = none; created_at = 0 };
  target = alice;
  deposit = alice;
  contract = agent;
  is_order = refl;
  has_assets = refl;
  has_asset = refl;
  has_holdings = refl;
  holds = refl;
  finds_target = refl;
  finds_deposit = refl;
  names_target = refl;
  names_deposit = refl;
  answers = refl;
}

confiscation_mints_example :
    (handle_order fee 100 (order_request self_confiscation)
      ≡ ok (confiscation_response fee 100 200 self_ready []))
    × (run_handler 100 200
          (confiscation_transaction fee 100 200 self_ready [])
          (Message.confiscation (confiscation_message 100 contract self_confiscation))
          contract
        ≡ ok (confiscated fee 100 200 self_ready []))
    × (balance_of (confiscated fee 100 200 self_ready []) token alice
        ≡ (balance_of contract token alice + least (balance_of contract token alice) 12) % 2 ^ 64)
unfolding self_ready
confiscation_mints_example = confiscation_mints fee 100 200 self_ready [] refl refl

-- Her 10 tokens become 20.
minted : balance_of (confiscated fee 100 200 self_ready []) token alice ≡ 20
unfolding self_ready lookup bytes_eq taken confiscation_message insert clear_expired holding_or_new
minted = refl
