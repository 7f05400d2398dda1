-- ===== src/Response/Handlers.antt =====
-- The handlers of `internal/response`, which write a response message into the contract. The
-- source writes through the pointer; the contract after the call is returned here. `now` is
-- `time.Now().Unix()` and `nano` is `time.Now().UnixNano()`.
use smart_contract.Prelude.{
  ℕ, Bytes, bytes_key, ascii, if◌then◌else◌, none, some, Outcome, Error, ok, ◌>>=◌, index, or_err,
}
use smart_contract.Prelude.Dict.{GoMap, get, put}
use smart_contract.Protocol.{
  AssetCreation, ContractFormation, Settlement, Freeze, Thaw, Confiscation,
}
use smart_contract.Btcutil.{Btcutil}
use smart_contract.TxBuilder.{address_of}
use smart_contract.State.{
  Asset, Holding, HoldingStatus, Contract, new_holding, new_asset, edit_asset, edit_contract,
  is_expired,
}
use smart_contract.Inspector.{Transaction}

-- `asset.Holdings[addr]`, or a new holding of nothing.
unfoldable pub holding_or_new : ℕ → Bytes → GoMap Bytes Holding → Holding
holding_or_new nano address holdings = elim (get address holdings) [
  | none ↦ new_holding nano address 0
  | some h ↦ h
]

-- The holding with an expired status cleared.
unfoldable pub clear_expired : ℕ → Holding → Holding
clear_expired now h = elim h.holding_status [
  | none ↦ h
  | some s ↦ if is_expired now s then record h { holding_status = none } else h
]

-- Two holdings written to an asset, and the asset to the contract.
unfoldable pub put_holdings :
    Contract → Bytes → Asset → Bytes → Holding → Bytes → Holding → Outcome Contract
put_holdings c key asset addr1 holding1 addr2 holding2 = do
  one ← put addr1 holding1 asset.holdings
  two ← put addr2 holding2 one
  assets ← put key (record asset { holdings = two }) c.assets
  ok (record c { assets = assets })

unfoldable pub put_holding : Contract → Bytes → Asset → Bytes → Holding → Outcome Contract
put_holding c key asset addr holding = do
  holdings ← put addr holding asset.holdings
  assets ← put key (record asset { holdings = holdings }) c.assets
  ok (record c { assets = assets })

module _ {Addr MsgTx : Type 0} ⦃b : Btcutil Addr⦄ (now nano : ℕ)
    (itx : Transaction Addr MsgTx) where
  -- `itx.Outputs[i].Address.EncodeAddress()`
  unfoldable pub output_address : ℕ → Outcome Bytes
  output_address i = do o ← index itx.outputs i; a ← address_of o; ok (b.encode_address a)

  -- The tail that settlement and confiscation share: both balances are set as the message says.
  unfoldable pub set_balances : Bytes → Asset → ℕ → ℕ → Contract → Outcome Contract
  unfolding output_address holding_or_new clear_expired put_holdings
  set_balances key asset balance1 balance2 c = do
    addr1 ← output_address 0
    let holding1 = holding_or_new nano addr1 asset.holdings
    addr2 ← output_address 1
    let holding2 = holding_or_new nano addr2 asset.holdings
    put_holdings c key asset addr1 (clear_expired now (record holding1 { balance = balance1 }))
        addr2 (clear_expired now (record holding2 { balance = balance2 }))

  unfoldable pub settlement_handler : Settlement → Contract → Outcome Contract
  settlement_handler msg c = do
    asset ← or_err (get msg.asset_id c.assets) Error.asset_not_found
    set_balances msg.asset_id asset msg.party1_token_qty msg.party2_token_qty c

  unfoldable pub confiscation_handler : Confiscation → Contract → Outcome Contract
  confiscation_handler msg c = do
    asset ← or_err (get msg.asset_id c.assets) Error.asset_not_found
    set_balances msg.asset_id asset msg.targets_qty msg.deposits_qty c

  unfoldable pub freeze_handler : Freeze → Contract → Outcome Contract
  unfolding output_address holding_or_new put_holding
  freeze_handler msg c = do
    asset ← or_err (get msg.asset_id c.assets) Error.asset_not_found
    addr ← output_address 0
    let holding = holding_or_new nano addr asset.holdings
    let order_status : HoldingStatus = record { code = ascii "F"; expires = msg.expiration }
    put_holding c msg.asset_id asset addr (record holding { holding_status = some order_status })

  unfoldable pub thaw_handler : Thaw → Contract → Outcome Contract
  unfolding output_address holding_or_new put_holding
  thaw_handler msg c = do
    asset ← or_err (get msg.asset_id c.assets) Error.asset_not_found
    addr ← output_address 0
    let holding = holding_or_new nano addr asset.holdings
    put_holding c msg.asset_id asset addr (record holding { holding_status = none })

  -- A new asset belongs to the address of the second output, in the text of `String()`.
  unfoldable pub asset_creation_handler : AssetCreation → Contract → Outcome Contract
  asset_creation_handler msg c = elim (get msg.asset_id c.assets) [
    | none ↦ do
      o ← index itx.outputs 1
      a ← address_of o
      let asset = new_asset nano msg (new_holding nano (b.to_string a) msg.qty)
      assets ← put asset.id asset c.assets
      ok (record c { assets = assets })
    | some old ↦ do
      let asset = edit_asset old msg
      assets ← put asset.id asset c.assets
      ok (record c { assets = assets })
  ]

unfoldable pub contract_formation_handler : ContractFormation → Contract → Outcome Contract
contract_formation_handler msg c = ok (edit_contract c msg)
