-- ===== src/Request/Orders.antt =====
-- `order_handler.go`: freeze, thaw and confiscation orders.
use smart_contract.Prelude.{
  ℕ, ◌+◌, ◌-◌, ◌%◌, ◌^◌, bytes_key, ◌==◌, ltb, if◌then◌else◌, none, some, List, [], ◌∷◌, Outcome,
  Error, ok, err, ◌>>=◌, or_err, Option,
}
use smart_contract.Prelude.Dict.{get}
use smart_contract.Protocol.{
  Message, Order, Confiscation, new_freeze, new_thaw, new_confiscation, dust_limit,
}
use smart_contract.Protocol.Compliance
use smart_contract.Btcutil.{Btcutil}
use smart_contract.TxBuilder.{TxOutput, pay_to}
use smart_contract.State.{Holding, Contract, contract_address}
use smart_contract.Request.Defs.{Fee, ContractRequest, ContractResponse, with_fee, as_order}
use smart_contract.Request.Transfer.{balance_or_zero}

-- The quantity that can be taken: what is asked for, limited to what the target holds.
unfoldable pub taken : ℕ → ℕ → ℕ
taken target_balance qty = if ltb target_balance qty then target_balance else qty

-- A nil map or a missing key reads as the zero value; `Asset{}` has a nil map of holdings.
abbrev pub target_of : Contract → Order → Option Holding
target_of c order = elim (get order.asset_id c.assets) [
  | none ↦ none
  | some a ↦ get order.target_address a.holdings
]

abbrev pub deposit_of : Contract → Order → Option Holding
deposit_of c order = elim (get order.asset_id c.assets) [
  | none ↦ none
  | some a ↦ get order.deposit_address a.holdings
]

unfoldable pub confiscation_message : ℕ → Contract → Order → Confiscation
unfolding taken
confiscation_message now c order =
    let target = balance_or_zero (target_of c order) in
    let deposit = balance_or_zero (deposit_of c order) in
    let qty = taken target order.qty in
    record new_confiscation {
      asset_id = order.asset_id;
      asset_type = order.asset_type;
      timestamp = now;
      message = order.message;
      targets_qty = target - qty;
      deposits_qty = (deposit + qty) % 2 ^ 64;
    }

module _ {Addr : Type 0} ⦃b : Btcutil Addr⦄ where
  unfoldable pub build_freeze_thaw_outputs :
      Fee Addr → Contract → Order → Outcome (List (TxOutput Addr))
  build_freeze_thaw_outputs fee c order = do
    contract ← or_err (contract_address c) Error.external
    target ← or_err (b.decode_address order.target_address) Error.external
    ok (with_fee fee (pay_to target dust_limit ∷ pay_to contract dust_limit ∷ []))

  unfoldable pub build_confiscate_outputs :
      Fee Addr → Contract → Order → Outcome (List (TxOutput Addr))
  build_confiscate_outputs fee c order = do
    target ← or_err (b.decode_address order.target_address) Error.external
    deposit ← or_err (b.decode_address order.deposit_address) Error.external
    contract ← or_err (contract_address c) Error.external
    ok (
        with_fee fee
          (pay_to target dust_limit ∷ pay_to deposit dust_limit ∷ pay_to contract dust_limit ∷ []))

  unfoldable pub freeze : Fee Addr → ℕ → Contract → Order → Outcome (ContractResponse Addr)
  unfolding build_freeze_thaw_outputs
  freeze fee now c order = do
    contract_addr ← or_err (contract_address c) Error.external
    outputs ← build_freeze_thaw_outputs fee c order
    ok (record {
      contract = c;
      message = some (
          Message.freeze (record new_freeze {
            asset_id = order.asset_id;
            asset_type = order.asset_type;
            timestamp = now;
            qty = order.qty;
            message = order.message;
            expiration = order.expiration;
          }));
      outs = outputs;
      change_address = some contract_addr;
    })

  unfoldable pub thaw : Fee Addr → ℕ → Contract → Order → Outcome (ContractResponse Addr)
  unfolding build_freeze_thaw_outputs
  thaw fee now c order = do
    contract_addr ← or_err (contract_address c) Error.external
    outputs ← build_freeze_thaw_outputs fee c order
    ok (record {
      contract = c;
      message = some (
          Message.thaw (record new_thaw {
            asset_id = order.asset_id;
            asset_type = order.asset_type;
            timestamp = now;
            qty = order.qty;
            message = order.message;
          }));
      outs = outputs;
      change_address = some contract_addr;
    })

  unfoldable pub confiscate : Fee Addr → ℕ → Contract → Order → Outcome (ContractResponse Addr)
  unfolding build_confiscate_outputs
  confiscate fee now c order = do
    outputs ← build_confiscate_outputs fee c order
    contract_addr ← or_err (contract_address c) Error.external
    ok (record {
      contract = c;
      message = some (Message.confiscation (confiscation_message now c order));
      outs = outputs;
      change_address = some contract_addr;
    })

  -- The `switch` on the compliance action.
  unfoldable pub enforce : Fee Addr → ℕ → Contract → Order → Outcome (ContractResponse Addr)
  unfolding freeze thaw confiscate
  enforce fee now c order =
      if order.compliance_action == Compliance.freeze
      then freeze fee now c order
      else if order.compliance_action == Compliance.thaw
      then thaw fee now c order
      else if order.compliance_action == Compliance.confiscation
      then confiscate fee now c order
      else err Error.unknown_enforcement

module _ {Addr MsgTx : Type 0} ⦃b : Btcutil Addr⦄ where
  unfoldable pub handle_order :
      Fee Addr → ℕ → ContractRequest Addr MsgTx → Outcome (ContractResponse Addr)
  unfolding enforce
  handle_order fee now r = do
    order ← or_err (as_order r.m) Error.wrong_type
    asset ← or_err (get order.asset_id r.contract.assets) Error.asset_not_found
    target ← or_err (get order.target_address asset.holdings) Error.holding_not_found
    enforce fee now r.contract order
