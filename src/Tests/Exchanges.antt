-- ===== src/Tests/Exchanges.antt =====
-- Exchanges at concrete inputs.
use smart_contract.Prelude.{
  ◌+◌, ◌-◌, ◌%◌, ◌^◌, Bytes, bytes_eq, bytes_eq-ne, bytes_key, none, [], ◌∷◌, ◌≡◌, refl, ◌≢◌, ok,
  arith, ascii,
}
use smart_contract.Prelude.Dict.{lookup}
use smart_contract.Protocol.{Message}
use smart_contract.TxBuilder.{pay_to}
use smart_contract.Request.Defs.{ContractRequest}
use smart_contract.Request.Transfer.{handle_exchange}
use smart_contract.Response.Service.{run_handler}
use smart_contract.Ledger.Balance.{balance_of}
use smart_contract.Ledger.Transfers.{moved}
use smart_contract.Ledger.Exchanges.{
  ExchangeReady, exchanged, exchange_response, exchange_transaction, exchange_contract,
  exchange_settles, exchange_misplaces, exchange_mints,
}
use smart_contract.Tests.Base.{
  plain, Tx, alice, bob, carol, agent, token, fee, floats, held, shares, assets, contract, asked,
}
use smart_contract.Tests.Messages.{exchange}
use smart_contract.Tests.Transfers.{alice_ne_bob}

-- A sender asks for an exchange between Alice and another address.
abbrev exchange_request : Bytes → Bytes → ContractRequest Bytes Tx
exchange_request sender party2 =
    asked (sender ∷ []) (pay_to agent 2000 ∷ pay_to alice 546 ∷ pay_to party2 546 ∷ [])
      (Message.exchange exchange)

abbrev ready :
    (sender party2 : Bytes) → ExchangeReady plain floats (exchange_request sender party2) exchange
unfolding lookup bytes_eq
ready sender party2 = record {
  asset = shares;
  assets = assets;
  holdings = held;
  held = record { address = alice; balance = 10; holding_status = none; created_at = 0 };
  sender = sender;
  party1 = alice;
  party2 = party2;
  contract = agent;
  fee_address = ascii "exchange";
  out0 = pay_to agent 2000;
  out1 = pay_to alice 546;
  out2 = pay_to party2 546;
  others = [];
  senders = [];
  is_exchange = refl;
  has_assets = refl;
  has_asset = refl;
  has_holdings = refl;
  sends = refl;
  receives = refl;
  reaches1 = refl;
  reaches2 = refl;
  holds = refl;
  covers = omega arith;
  answers = refl;
  pays = λ positive. refl;
}

exchange_settles_example :
    (handle_exchange floats fee 100 (exchange_request alice bob)
      ≡ ok (exchange_response floats fee 100 200 (ready alice bob) []))
    × (run_handler 100 200
          (exchange_transaction floats fee 100 200 (ready alice bob) [])
          (Message.settlement (exchanged floats fee 100 200 (ready alice bob) []))
          contract
        ≡ ok (exchange_contract floats fee 100 200 (ready alice bob) []))
    × ((addr : Bytes)
        → balance_of (exchange_contract floats fee 100 200 (ready alice bob) []) token addr
          ≡ moved 4 alice bob (balance_of contract token) addr)
unfolding ready
exchange_settles_example =
    exchange_settles floats fee 100 200 (ready alice bob) [] refl alice_ne_bob

carol_ne_alice : carol ≢ alice
unfolding bytes_eq
carol_ne_alice = bytes_eq-ne carol alice refl

carol_ne_bob : carol ≢ bob
unfolding bytes_eq
carol_ne_bob = bytes_eq-ne carol bob refl

exchange_misplaces_example :
    (handle_exchange floats fee 100 (exchange_request carol bob)
      ≡ ok (exchange_response floats fee 100 200 (ready carol bob) []))
    × (run_handler 100 200
          (exchange_transaction floats fee 100 200 (ready carol bob) [])
          (Message.settlement (exchanged floats fee 100 200 (ready carol bob) []))
          contract
        ≡ ok (exchange_contract floats fee 100 200 (ready carol bob) []))
    × (balance_of (exchange_contract floats fee 100 200 (ready carol bob) []) token alice
        ≡ balance_of contract token alice)
    × (balance_of (exchange_contract floats fee 100 200 (ready carol bob) []) token carol
        ≡ balance_of contract token alice - 4)
unfolding ready
exchange_misplaces_example =
    exchange_misplaces floats fee 100 200 (ready carol bob) [] carol_ne_alice carol_ne_bob
      alice_ne_bob

exchange_mints_example :
    (handle_exchange floats fee 100 (exchange_request alice alice)
      ≡ ok (exchange_response floats fee 100 200 (ready alice alice) []))
    × (run_handler 100 200
          (exchange_transaction floats fee 100 200 (ready alice alice) [])
          (Message.settlement (exchanged floats fee 100 200 (ready alice alice) []))
          contract
        ≡ ok (exchange_contract floats fee 100 200 (ready alice alice) []))
    × (balance_of (exchange_contract floats fee 100 200 (ready alice alice) []) token alice
        ≡ (balance_of contract token alice + 4) % 2 ^ 64)
unfolding ready
exchange_mints_example = exchange_mints floats fee 100 200 (ready alice alice) [] refl refl
