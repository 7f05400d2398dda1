-- ===== src/Tests/Freezing.antt =====
-- Freezes and thaws at concrete inputs.
use smart_contract.Prelude.{
  ◌≤◌, Bytes, bytes_eq, bytes_key, false, none, [], ◌∷◌, ◌≡◌, refl, ◌≢◌, ok, err, arith, rejected,
}
use smart_contract.Prelude.Dict.{lookup}
use smart_contract.Protocol.{Message}
use smart_contract.Protocol.RejectionCode
use smart_contract.TxBuilder.{pay_to}
use smart_contract.State.{is_expired}
use smart_contract.Inspector.{Transaction}
use smart_contract.Response.Handlers.{freeze_handler, thaw_handler}
use smart_contract.Validator.Transfer.{validate_send, in_force, status_of}
use smart_contract.Ledger.Balance.{holding_of, balance_of}
use smart_contract.Ledger.Freezing.{
  HasTarget, frozen, frozen_until, with_status, freeze_blocks_send, thaw_clears,
}
use smart_contract.Tests.Base.{
  plain, Tx, alice, bob, agent, token, held, shares, assets, contract, sent,
}
use smart_contract.Tests.Messages.{send, freeze, thaw}

-- The responses that freeze and thaw the holding of Alice.
abbrev freeze_response : Transaction Bytes Tx
freeze_response = sent [] (pay_to alice 546 ∷ pay_to agent 546 ∷ []) (Message.freeze freeze)

abbrev thaw_response : Transaction Bytes Tx
thaw_response = sent [] (pay_to alice 546 ∷ pay_to agent 546 ∷ []) (Message.thaw thaw)

abbrev request : Transaction Bytes Tx
request = sent (alice ∷ []) (pay_to agent 2000 ∷ pay_to bob 546 ∷ []) (Message.send send)

abbrev target : HasTarget plain freeze_response contract token
unfolding lookup bytes_eq
target = record {
  asset = shares;
  assets = assets;
  holdings = held;
  out = pay_to alice 546;
  rest = pay_to agent 546 ∷ [];
  target = alice;
  has_assets = refl;
  has_asset = refl;
  has_holdings = refl;
  outs = refl;
  reaches = refl;
}

unexpired : is_expired 500 (frozen_until 1000) ≡ false
unfolding is_expired
unexpired = refl

covers : 4 ≤ balance_of contract token alice
unfolding lookup bytes_eq
covers = omega arith

freeze_blocks_send_example :
    (freeze_handler 100 200 freeze_response freeze contract ≡ ok (frozen 100 200 freeze target))
    × (validate_send 500 request (frozen 100 200 freeze target) (Message.send send)
        ≡ err (rejected RejectionCode.frozen))
unfolding target
freeze_blocks_send_example =
    freeze_blocks_send 100 200 freeze target 500 request send alice unexpired refl refl refl covers

abbrev thaw_target : HasTarget plain thaw_response contract token
unfolding lookup bytes_eq
thaw_target = record {
  asset = shares;
  assets = assets;
  holdings = held;
  out = pay_to alice 546;
  rest = pay_to agent 546 ∷ [];
  target = alice;
  has_assets = refl;
  has_asset = refl;
  has_holdings = refl;
  outs = refl;
  reaches = refl;
}

thaw_clears_example :
    (thaw_handler 100 200 thaw_response thaw contract ≡ ok (with_status 100 200 thaw_target none))
    × (in_force 100 (status_of (holding_of (with_status 100 200 thaw_target none) token alice))
        ≡ false)
    × ((addr : Bytes)
        → balance_of (with_status 100 200 thaw_target none) token addr
          ≡ balance_of contract token addr)
    × ((addr : Bytes)
        → addr ≢ alice
        → holding_of (with_status 100 200 thaw_target none) token addr
          ≡ holding_of contract token addr)
unfolding thaw_target
thaw_clears_example = thaw_clears 100 200 thaw thaw_target
