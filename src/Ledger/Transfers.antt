-- ===== src/Ledger/Transfers.antt =====
-- A send and its settlement, from the request handler to the holdings.
use smart_contract.Prelude.{
  ℕ, ◌+◌, ◌-◌, ◌%◌, ◌^◌, ◌≤◌, ◌<◌, Bytes, bytes_eq, bytes_eq_iff, bytes_key, if◌then◌else◌, none,
  some, List, [], ◌∷◌, ◌≡◌, refl, ◌≢◌, ok, arith, ap,
}
use smart_contract.Prelude.Dict.{Dict, get, lookup}
use smart_contract.Protocol.{Message, Send, Settlement, dust_limit}
use smart_contract.Btcutil.{Btcutil}
use smart_contract.TxBuilder.{TxOutput, Utxo, pay_to}
use smart_contract.State.{Asset, Holding, Contract}
use smart_contract.Inspector.{Transaction, create_transaction}
use smart_contract.Request.Defs.{Fee, ContractRequest, ContractResponse, with_fee}
use smart_contract.Request.Transfer.{balance_or_zero, settle, handle_send}
use smart_contract.Response.Handlers.{settlement_handler}
use smart_contract.Response.Service.{run_handler}
use smart_contract.Ledger.Balance.{
  balance_of, with_holdings, holding_of-with_holdings, set_balances_lem, settled_holdings,
  balance-settled_holdings, supply-settled_holdings, supply_of, supply_of-with_holdings, supply,
}

-- The balances after `qty` has moved between two addresses, for every address.
abbrev pub moved : ℕ → Bytes → Bytes → (Bytes → ℕ) → Bytes → ℕ
moved qty from to before addr =
    if bytes_eq addr from
    then before addr - qty
    else if bytes_eq addr to
    then (before addr + qty) % 2 ^ 64
    else before addr

-- What a send must meet to be answered: the data that the handler finds.
pub record SendReady {Addr MsgTx : Type 0} (b : Btcutil Addr) (r : ContractRequest Addr MsgTx)
    (m : Send) : Type 0 where
  pub asset : Asset
  pub assets : Dict Bytes Asset
  pub holdings : Dict Bytes Holding
  pub party1 : Holding
  pub sender : Addr
  pub receiver : Addr
  pub contract : Addr
  pub out0 : TxOutput Addr
  pub out1 : TxOutput Addr
  pub others : List (TxOutput Addr)
  pub senders : List Addr
  pub is_send : r.m ≡ Message.send m
  pub has_assets : r.contract.assets ≡ some assets
  pub has_asset : lookup m.asset_id assets ≡ some asset
  pub has_holdings : asset.holdings ≡ some holdings
  pub sends : r.senders ≡ sender ∷ senders
  pub holds : lookup (b.encode_address sender) holdings ≡ some party1
  pub covers : m.token_qty ≤ party1.balance
  pub receives : r.receivers ≡ out0 ∷ out1 ∷ others
  pub reaches : out1.address ≡ some receiver
  pub apart : b.encode_address sender ≢ b.encode_address receiver
  pub answers : b.decode_address r.contract.id ≡ some contract

module _ {Addr MsgTx : Type 0} ⦃b : Btcutil Addr⦄ (fee : Fee Addr) (now nano : ℕ)
    {r : ContractRequest Addr MsgTx} {m : Send} (s : SendReady b r m) where
  abbrev pub settled : Settlement
  settled =
      settle now m.asset_type m.asset_id s.party1.balance
        (balance_or_zero (lookup (b.encode_address s.receiver) s.holdings)) m.token_qty

  abbrev pub send_response : ContractResponse Addr
  send_response = record {
    contract = r.contract;
    message = some (Message.settlement settled);
    outs = with_fee fee (
        pay_to s.sender dust_limit
        ∷ pay_to s.receiver dust_limit
        ∷ pay_to s.contract dust_limit
        ∷ []);
    change_address = none;
  }

  pub handle_send_ready : handle_send fee now r ≡ ok send_response
  unfolding handle_send
  handle_send_ready = ground (
    arith,
    s.is_send,
    s.has_assets,
    s.has_asset,
    s.has_holdings,
    s.sends,
    s.holds,
    s.covers,
    s.receives,
    s.reaches,
    s.apart,
    s.answers,
    bytes_eq_iff (b.encode_address s.sender) (b.encode_address s.receiver),
  )

-- The fee comes behind the first two outputs.
pub with_fee-cons :
    {Addr : Type 0} (fee : Fee Addr) (o1 o2 : TxOutput Addr) (outs : List (TxOutput Addr))
    → with_fee fee (o1 ∷ o2 ∷ outs) ≡ o1 ∷ o2 ∷ with_fee fee outs
with_fee-cons fee o1 o2 outs = ground arith

module _ {Addr MsgTx : Type 0} ⦃b : Btcutil Addr⦄ (fee : Fee Addr) (now nano : ℕ)
    {r : ContractRequest Addr MsgTx} {m : Send} (s : SendReady b r m) (utxos : List Utxo) where
  -- The transaction that the request service hands to the response service.
  abbrev pub send_transaction : Transaction Addr MsgTx
  send_transaction =
      create_transaction utxos (send_response fee now nano s).outs
        (send_response fee now nano s).message

  send_outs :
      send_transaction.outputs
      ≡ pay_to s.sender dust_limit
        ∷ pay_to s.receiver dust_limit
        ∷ with_fee fee (pay_to s.contract dust_limit ∷ [])
  send_outs =
      with_fee-cons fee (pay_to s.sender dust_limit) (pay_to s.receiver dust_limit)
        (pay_to s.contract dust_limit ∷ [])

  -- The holdings and the contract after the settlement.
  abbrev pub send_holdings : Dict Bytes Holding
  send_holdings =
      let n = settled fee now nano s in
      settled_holdings now nano (b.encode_address s.sender) (b.encode_address s.receiver)
        n.party1_token_qty n.party2_token_qty s.holdings

  abbrev pub send_contract : Contract
  send_contract = with_holdings r.contract m.asset_id s.asset s.assets send_holdings

  found : get m.asset_id r.contract.assets ≡ some s.asset
  found = rw s.has_assets s.has_asset

  pub run_handler-send :
      run_handler now nano send_transaction (Message.settlement (settled fee now nano s)) r.contract
      ≡ ok send_contract
  unfolding run_handler settlement_handler
  run_handler-send =
      let n = settled fee now nano s in
      rw found (
        set_balances_lem now nano send_transaction s.sender s.receiver send_outs refl refl
          m.asset_id s.asset n.party1_token_qty n.party2_token_qty r.contract s.has_assets
          s.has_holdings)

  balance-before :
      (addr : Bytes)
      → balance_of r.contract m.asset_id addr ≡ balance_or_zero (lookup addr s.holdings)
  balance-before addr = ground (arith, found, s.has_holdings)

  balance-send :
      (addr : Bytes)
      → balance_of send_contract m.asset_id addr
        ≡ moved m.token_qty
            (b.encode_address s.sender)
            (b.encode_address s.receiver)
            (balance_of r.contract m.asset_id)
            addr
  balance-send addr =
      let from = b.encode_address s.sender in
      let to = b.encode_address s.receiver in
      let n = settled fee now nano s in
      ground (
        arith,
        ap balance_or_zero
            (holding_of-with_holdings r.contract m.asset_id s.asset s.assets send_holdings addr),
        balance-settled_holdings now nano from to n.party1_token_qty n.party2_token_qty s.holdings
            addr,
        balance-before addr,
        s.holds,
        s.apart,
        bytes_eq_iff addr from,
        bytes_eq_iff addr to,
      )

  supply-send :
      balance_of r.contract m.asset_id (b.encode_address s.receiver) + m.token_qty < 2 ^ 64
      → supply send_holdings ≡ supply s.holdings
  supply-send fits =
      let from = b.encode_address s.sender in
      let to = b.encode_address s.receiver in
      let n = settled fee now nano s in
      supply-settled_holdings now nano from to n.party1_token_qty n.party2_token_qty s.holdings
        s.apart (ground (arith, balance-before to, s.holds, s.covers))

  -- A send that is ready is answered, and its settlement is carried out: the sender's balance falls
  -- by the quantity, the receiver's rises by it in `uint64`, and every other address of the asset
  -- keeps its balance.
  pub send_settles :
      (handle_send fee now r ≡ ok (send_response fee now nano s))
      × (run_handler now nano send_transaction
            (Message.settlement (settled fee now nano s))
            r.contract
          ≡ ok send_contract)
      × ((addr : Bytes)
          → balance_of send_contract m.asset_id addr
            ≡ moved m.token_qty
                (b.encode_address s.sender)
                (b.encode_address s.receiver)
                (balance_of r.contract m.asset_id)
                addr)
  send_settles = (handle_send_ready fee now nano s, run_handler-send, balance-send)

  supply-send_contract :
      balance_of r.contract m.asset_id (b.encode_address s.receiver) + m.token_qty < 2 ^ 64
      → supply_of send_contract m.asset_id ≡ supply_of r.contract m.asset_id
  supply-send_contract fits = ground (
    arith,
    supply_of-with_holdings r.contract m.asset_id s.asset s.assets send_holdings,
    supply-send fits,
    found,
    s.has_holdings,
  )

  -- A send that is ready (`SendReady`: its asset and a holding of the sender that covers the
  -- quantity are there, sender and receiver have different addresses, and the contract's identifier
  -- decodes) is answered by the request handler, and its answer is carried out by the response
  -- handler; where the receiver's balance does not overflow, the sum of all balances of the asset is
  -- the same in the contract that this leaves as it was before.
  pub send_conserves :
      balance_of r.contract m.asset_id (b.encode_address s.receiver) + m.token_qty < 2 ^ 64
      → (response : ContractResponse Addr) × (reply : Message) × (after : Contract) × (handle_send
            fee now r
          ≡ ok response)
        × (response.message ≡ some reply)
        × (run_handler {MsgTx = MsgTx} now nano
              (create_transaction utxos response.outs response.message)
              reply
              r.contract
            ≡ ok after)
        × (supply_of after m.asset_id ≡ supply_of r.contract m.asset_id)
  send_conserves fits = (
    send_response fee now nano s,
    Message.settlement (settled fee now nano s),
    send_contract,
    handle_send_ready fee now nano s,
    refl,
    run_handler-send,
    supply-send_contract fits,
  )
