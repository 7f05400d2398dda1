-- ===== src/Request/Transfer.antt =====
-- `send_handler.go` and `exchange_handler.go`: a transfer of tokens is answered by a settlement
-- that carries the two new balances.
use smart_contract.Prelude.{
  ℕ, ◌+◌, ◌-◌, ◌%◌, ◌^◌, Bytes, bytes_eq, bytes_key, Bool, not, ltb, if◌then◌else◌, Option, none,
  some, List, [], ◌∷◌, ◌++◌, length, Outcome, Error, ok, ◌>>=◌, ◌>>◌, index, require, or_err,
}
use smart_contract.Prelude.Dict.{get}
use smart_contract.Protocol.{Message, Settlement, Float32, new_settlement, dust_limit}
use smart_contract.Btcutil.{Btcutil}
use smart_contract.TxBuilder.{TxOutput, pay_to, address_of}
use smart_contract.State.{Holding, contract_address}
use smart_contract.Request.Defs.{
  Fee, ContractRequest, ContractResponse, with_fee, as_send, as_exchange,
}

-- The conversions of a `float32` that `buildOutputs` of the exchange makes:
-- `ExchangeFeeFixed > 0` and `ConvertBCHToSatoshis`.
pub record Floats : Type 0 where
  pub is_positive : Float32 → Bool
  pub bch_to_satoshis : Float32 → ℕ

-- The balance of a holding that may be missing.
abbrev pub balance_or_zero : Option Holding → ℕ
balance_or_zero none = 0
balance_or_zero (some h) = h.balance

-- A settlement with the balances after `qty` has moved, in `uint64`.
abbrev pub settle : ℕ → Bytes → Bytes → ℕ → ℕ → ℕ → Settlement
settle now asset_type asset_id party1 party2 qty = record new_settlement {
  asset_type = asset_type;
  asset_id = asset_id;
  party1_token_qty = party1 - qty;
  party2_token_qty = (party2 + qty) % 2 ^ 64;
  timestamp = now;
}

module _ {Addr MsgTx : Type 0} ⦃b : Btcutil Addr⦄ where
  unfoldable pub build_send_outputs :
      Fee Addr → ContractRequest Addr MsgTx → Outcome (List (TxOutput Addr))
  build_send_outputs fee r = do
    party1 ← index r.senders 0
    receiver ← index r.receivers 1
    contract ← or_err (contract_address r.contract) Error.external
    party2 ← address_of receiver
    ok (
        with_fee fee
          (pay_to party1 dust_limit ∷ pay_to party2 dust_limit ∷ pay_to contract dust_limit ∷ []))

  -- `party1Balance` is at least the quantity here, so the subtraction of `settle` does not wrap.
  unfoldable pub handle_send :
      Fee Addr → ℕ → ContractRequest Addr MsgTx → Outcome (ContractResponse Addr)
  unfolding build_send_outputs
  handle_send fee now r = do
    issue ← or_err (as_send r.m) Error.wrong_type
    asset ← or_err (get issue.asset_id r.contract.assets) Error.asset_not_found
    require (not (ltb (length r.receivers) 2)) Error.missing_receivers
    sender ← index r.senders 0
    let party1_addr = b.encode_address sender
    party1 ← or_err (get party1_addr asset.holdings) Error.holding_not_found
    require (not (ltb party1.balance issue.token_qty)) Error.insufficient_assets
    receiver ← index r.receivers 1
    address ← address_of receiver
    let party2_addr = b.encode_address address
    require (not (bytes_eq party1_addr party2_addr)) Error.transfer_self
    let settlement =
        settle now issue.asset_type issue.asset_id party1.balance
          (balance_or_zero (get party2_addr asset.holdings)) issue.token_qty
    outputs ← build_send_outputs fee r
    ok (record {
      contract = r.contract;
      message = some (Message.settlement settlement);
      outs = outputs;
      change_address = none;
    })

  -- The contract fee, then the exchange fee.
  unfoldable pub build_exchange_outputs :
      Floats → Fee Addr → ContractRequest Addr MsgTx → Outcome (List (TxOutput Addr))
  build_exchange_outputs f fee r = do
    party1 ← index r.senders 0
    receiver ← index r.receivers 2
    contract ← or_err (contract_address r.contract) Error.external
    exchange ← or_err (as_exchange r.m) Error.wrong_type
    party2 ← address_of receiver
    let outs =
        with_fee fee
          (pay_to party1 dust_limit ∷ pay_to party2 dust_limit ∷ pay_to contract dust_limit ∷ [])
    if f.is_positive exchange.exchange_fee_fixed
        then (do
          a ← or_err (b.decode_address exchange.exchange_fee_address) Error.external
          ok (outs ++ pay_to a (f.bch_to_satoshis exchange.exchange_fee_fixed) ∷ []))
        else ok outs

  -- `party1OutValue` is computed in the source and not used.
  unfoldable pub handle_exchange :
      Floats → Fee Addr → ℕ → ContractRequest Addr MsgTx → Outcome (ContractResponse Addr)
  unfolding build_exchange_outputs
  handle_exchange f fee now r = do
    exchange ← or_err (as_exchange r.m) Error.wrong_type
    asset ← or_err (get exchange.party1_asset_id r.contract.assets) Error.asset_not_found
    require (not (ltb (length r.receivers) 3)) Error.missing_receivers
    receiver1 ← index r.receivers 1
    address1 ← address_of receiver1
    party1 ← or_err (get (b.encode_address address1) asset.holdings) Error.holding_not_found
    receiver2 ← index r.receivers 2
    address2 ← address_of receiver2
    let party2 = get (b.encode_address address2) asset.holdings
    require (not (ltb party1.balance exchange.party1_token_qty)) Error.insufficient_assets
    let settlement =
        settle now exchange.party1_asset_type exchange.party1_asset_id party1.balance
          (balance_or_zero party2) exchange.party1_token_qty
    outputs ← build_exchange_outputs f fee r
    ok (record {
      contract = r.contract;
      message = some (Message.settlement settlement);
      outs = outputs;
      change_address = none;
    })
