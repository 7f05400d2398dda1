-- ===== src/Validator/Transfer.antt =====
-- `send_validator.go`, `exchange_validator.go` and `order_validator.go`. A validator returns
-- `ok tt` for `RejectionCodeOK` and `err (rejected c)` for another code c.
use smart_contract.Prelude.{
  ℕ, ltb, bytes_eq, bytes_key, Bool, false, not, Option, none, some, length, Outcome, ok, ◌>>=◌,
  ◌>>◌, index, require, or_err, or_panic, rejected,
}
use smart_contract.Prelude.Dict.{get, lookup}
use smart_contract.Protocol.{Message}
use smart_contract.Protocol.RejectionCode
use smart_contract.Btcutil.{Btcutil}
use smart_contract.TxBuilder.{address_of}
use smart_contract.State.{Holding, HoldingStatus, Contract, is_expired}
use smart_contract.Inspector.{Transaction}
use smart_contract.Request.Defs.{as_send, as_exchange, as_order}

-- `if !b { return c }`
abbrev pub unless : Bool → ℕ → Outcome (Unit {0})
unless b c = require b (rejected c)

-- An order on the holding is in force: a status that has not expired.
unfoldable pub in_force : ℕ → Option HoldingStatus → Bool
in_force now none = false
in_force now (some s) = not (is_expired now s)

abbrev pub status_of : Option Holding → Option HoldingStatus
status_of none = none
status_of (some h) = h.holding_status

module _ {Addr MsgTx : Type 0} ⦃b : Btcutil Addr⦄ (now : ℕ) where
  unfoldable pub validate_send : Transaction Addr MsgTx → Contract → Message → Outcome (Unit {0})
  validate_send itx c msg = do
    m ← or_panic (as_send msg)
    asset ← or_err (get m.asset_id c.assets) (rejected RejectionCode.asset_not_found)
    holdings ← or_err asset.holdings (rejected RejectionCode.asset_not_found)
    sender ← index itx.input_addrs 0
    let party1_addr = b.encode_address sender
    party1 ← or_err (lookup party1_addr holdings) (rejected RejectionCode.insufficient_assets)
    unless (not (ltb party1.balance m.token_qty)) RejectionCode.insufficient_assets
    unless (not (in_force now party1.holding_status)) RejectionCode.frozen
    unless (not (ltb (length itx.outputs) 2)) RejectionCode.receiver_unspecified
    receiver ← index itx.outputs 1
    address ← address_of receiver
    unless (not (bytes_eq party1_addr (b.encode_address address))) RejectionCode.transfer_self

  -- Party 2 is read from `itx.InputAddrs[1]`, whose presence is not tested.
  unfoldable pub validate_exchange :
      Transaction Addr MsgTx → Contract → Message → Outcome (Unit {0})
  validate_exchange itx c msg = do
    m ← or_panic (as_exchange msg)
    asset ← or_err (get m.party1_asset_id c.assets) (rejected RejectionCode.asset_not_found)
    holdings ← or_err asset.holdings (rejected RejectionCode.asset_not_found)
    address1 ← index itx.input_addrs 0
    party1 ←
        or_err (lookup (b.encode_address address1) holdings)
          (rejected RejectionCode.insufficient_assets)
    unless (not (ltb party1.balance m.party1_token_qty)) RejectionCode.insufficient_assets
    unless (not (in_force now party1.holding_status)) RejectionCode.frozen
    unless (not (ltb (length itx.outputs) 3)) RejectionCode.receiver_unspecified
    address2 ← index itx.input_addrs 1
    let party2 = lookup (b.encode_address address2) holdings
    unless (not (in_force now (status_of party2))) RejectionCode.frozen

unfoldable pub validate_order : Contract → Message → Outcome (Unit {0})
validate_order c msg = do
  m ← or_panic (as_order msg)
  asset ← or_err (get m.asset_id c.assets) (rejected RejectionCode.asset_not_found)
  holdings ← or_err asset.holdings (rejected RejectionCode.asset_not_found)
  target ← or_err (lookup m.target_address holdings) (rejected RejectionCode.insufficient_assets)
  ok tt
