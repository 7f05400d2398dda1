-- ===== src/Ledger/Exchanges.antt =====
-- An exchange and its settlement, from the request handler to the holdings.
use smart_contract.Prelude.{
  ℕ, ◌+◌, ◌-◌, ◌%◌, ◌^◌, ◌≤◌, Bytes, bytes_eq_iff, bytes_key, true, if◌then◌else◌, Bool-cases, inl,
  inr, none, some, List, [], ◌∷◌, ◌++◌, ◌≡◌, refl, ◌≢◌, ok, arith, ap,
}
use smart_contract.Prelude.Dict.{Dict, get, lookup}
use smart_contract.Protocol.{Message, Exchange, Settlement, dust_limit}
use smart_contract.Btcutil.{Btcutil}
use smart_contract.TxBuilder.{TxOutput, Utxo, pay_to}
use smart_contract.State.{Asset, Holding, Contract}
use smart_contract.Inspector.{Transaction, create_transaction}
use smart_contract.Request.Defs.{Fee, ContractRequest, ContractResponse, with_fee}
use smart_contract.Request.Transfer.{Floats, balance_or_zero, settle, handle_exchange}
use smart_contract.Response.Handlers.{settlement_handler}
use smart_contract.Response.Service.{run_handler}
use smart_contract.Ledger.Balance.{
  balance_of, bytes_eq_refl, with_holdings, holding_of-with_holdings, set_balances_lem,
  settled_holdings, balance-settled_holdings, two_set,
}
use smart_contract.Ledger.Transfers.{moved, with_fee-cons}

-- What an exchange must meet to be answered: its asset, a holding of the second receiver that covers
-- the quantity, addresses of the outputs, and an identifier of the contract that decodes. `party1` is
-- the address of the second receiver, whose balance the handler reads, and `sender` the first sender,
-- which the handler pays.
pub record ExchangeReady {Addr MsgTx : Type 0} (b : Btcutil Addr) (f : Floats)
    (r : ContractRequest Addr MsgTx) (m : Exchange) : Type 0 where
  pub asset : Asset
  pub assets : Dict Bytes Asset
  pub holdings : Dict Bytes Holding
  pub held : Holding
  pub sender : Addr
  pub party1 : Addr
  pub party2 : Addr
  pub contract : Addr
  pub fee_address : Addr
  pub out0 : TxOutput Addr
  pub out1 : TxOutput Addr
  pub out2 : TxOutput Addr
  pub others : List (TxOutput Addr)
  pub senders : List Addr
  pub is_exchange : r.m ≡ Message.exchange m
  pub has_assets : r.contract.assets ≡ some assets
  pub has_asset : lookup m.party1_asset_id assets ≡ some asset
  pub has_holdings : asset.holdings ≡ some holdings
  pub sends : r.senders ≡ sender ∷ senders
  pub receives : r.receivers ≡ out0 ∷ out1 ∷ out2 ∷ others
  pub reaches1 : out1.address ≡ some party1
  pub reaches2 : out2.address ≡ some party2
  pub holds : lookup (b.encode_address party1) holdings ≡ some held
  pub covers : m.party1_token_qty ≤ held.balance
  pub answers : b.decode_address r.contract.id ≡ some contract
  pub pays :
      f.is_positive m.exchange_fee_fixed ≡ true
      → b.decode_address m.exchange_fee_address ≡ some fee_address

module _ {Addr MsgTx : Type 0} ⦃b : Btcutil Addr⦄ (f : Floats) (fee : Fee Addr) (now nano : ℕ)
    {r : ContractRequest Addr MsgTx} {m : Exchange} (s : ExchangeReady b f r m)
    (utxos : List Utxo) where
  abbrev pub exchanged : Settlement
  exchanged =
      settle now m.party1_asset_type m.party1_asset_id s.held.balance
        (balance_or_zero (lookup (b.encode_address s.party2) s.holdings)) m.party1_token_qty

  -- The output of an exchange fee.
  abbrev pub exchange_fee_outs : List (TxOutput Addr)
  exchange_fee_outs =
      if f.is_positive m.exchange_fee_fixed
      then pay_to s.fee_address (f.bch_to_satoshis m.exchange_fee_fixed) ∷ []
      else []

  abbrev pub exchange_response : ContractResponse Addr
  exchange_response = record {
    contract = r.contract;
    message = some (Message.settlement exchanged);
    outs =
        with_fee fee (
          pay_to s.sender dust_limit
          ∷ pay_to s.party2 dust_limit
          ∷ pay_to s.contract dust_limit
          ∷ [])
        ++ exchange_fee_outs;
    change_address = none;
  }

  handle_exchange_ready : handle_exchange f fee now r ≡ ok exchange_response
  unfolding handle_exchange
  handle_exchange_ready = elim (Bool-cases (f.is_positive m.exchange_fee_fixed)) [
    | inl positive ↦ ground (
      arith,
      positive,
      s.is_exchange,
      s.has_assets,
      s.has_asset,
      s.has_holdings,
      s.sends,
      s.receives,
      s.reaches1,
      s.reaches2,
      s.holds,
      s.covers,
      s.answers,
      s.pays positive,
    )
    | inr zero_fee ↦ ground (
      arith, zero_fee, s.is_exchange, s.has_assets, s.has_asset, s.has_holdings, s.sends,
      s.receives, s.reaches1, s.reaches2, s.holds, s.covers, s.answers,
    )
  ]

  abbrev pub exchange_transaction : Transaction Addr MsgTx
  exchange_transaction = create_transaction utxos exchange_response.outs exchange_response.message

  abbrev pub exchange_holdings : Dict Bytes Holding
  exchange_holdings =
      settled_holdings now nano (b.encode_address s.sender) (b.encode_address s.party2)
        exchanged.party1_token_qty exchanged.party2_token_qty s.holdings

  abbrev pub exchange_contract : Contract
  exchange_contract = with_holdings r.contract m.party1_asset_id s.asset s.assets exchange_holdings

  found : get m.party1_asset_id r.contract.assets ≡ some s.asset
  found = rw s.has_assets s.has_asset

  exchange_outs :
      exchange_transaction.outputs
      ≡ pay_to s.sender dust_limit
        ∷ pay_to s.party2 dust_limit
        ∷ (with_fee fee (pay_to s.contract dust_limit ∷ []) ++ exchange_fee_outs)
  exchange_outs =
      ap (λ o. o ++ exchange_fee_outs)
        (with_fee-cons fee (pay_to s.sender dust_limit) (pay_to s.party2 dust_limit)
          (pay_to s.contract dust_limit ∷ []))

  run_handler-exchange :
      run_handler now nano exchange_transaction (Message.settlement exchanged) r.contract
      ≡ ok exchange_contract
  unfolding run_handler settlement_handler
  run_handler-exchange = rw found (
      set_balances_lem now nano exchange_transaction s.sender s.party2 exchange_outs refl refl
        m.party1_asset_id s.asset exchanged.party1_token_qty exchanged.party2_token_qty r.contract
        s.has_assets s.has_holdings)

  balance-before :
      (addr : Bytes)
      → balance_of r.contract m.party1_asset_id addr ≡ balance_or_zero (lookup addr s.holdings)
  balance-before addr = ground (arith, found, s.has_holdings)

  balance-exchange :
      (addr : Bytes)
      → balance_of exchange_contract m.party1_asset_id addr
        ≡ two_set
            (b.encode_address s.sender)
            (b.encode_address s.party2)
            (balance_of r.contract m.party1_asset_id (b.encode_address s.party1)
              - m.party1_token_qty)
            ((balance_of r.contract m.party1_asset_id (b.encode_address s.party2)
                + m.party1_token_qty)
              % 2 ^ 64)
            (balance_of r.contract m.party1_asset_id)
            addr
  balance-exchange addr = ground (
    arith,
    ap balance_or_zero (
        holding_of-with_holdings r.contract m.party1_asset_id s.asset s.assets exchange_holdings
          addr),
    balance-settled_holdings now nano (b.encode_address s.sender) (b.encode_address s.party2)
        exchanged.party1_token_qty exchanged.party2_token_qty s.holdings addr,
    balance-before addr,
    balance-before (b.encode_address s.party1),
    balance-before (b.encode_address s.party2),
    s.holds,
  )

  -- An exchange that is ready (`ExchangeReady`), whose first sender has the address of the second
  -- receiver and whose third receiver has another one, is answered, and its settlement is carried out:
  -- the quantity moves from the first of these addresses to the other, and every other address of the
  -- asset keeps its balance.
  pub exchange_settles :
      b.encode_address s.sender ≡ b.encode_address s.party1
      → b.encode_address s.party1 ≢ b.encode_address s.party2
      → (handle_exchange f fee now r ≡ ok exchange_response)
        × (run_handler now nano exchange_transaction (Message.settlement exchanged) r.contract
            ≡ ok exchange_contract)
        × ((addr : Bytes)
            → balance_of exchange_contract m.party1_asset_id addr
              ≡ moved m.party1_token_qty
                  (b.encode_address s.party1)
                  (b.encode_address s.party2)
                  (balance_of r.contract m.party1_asset_id)
                  addr)
  exchange_settles same apart = (
    handle_exchange_ready,
    run_handler-exchange,
    λ addr. ground (
      arith,
      balance-exchange addr,
      bytes_eq_iff addr (b.encode_address s.party1),
      bytes_eq_iff addr (b.encode_address s.party2),
    ),
  )

  -- An exchange that is ready (`ExchangeReady`), and whose first sender, second receiver and third
  -- receiver have three different addresses, is answered and carried out as well. The second receiver
  -- then keeps its balance, and the first sender's becomes the second receiver's less the quantity,
  -- whatever it was.
  pub exchange_misplaces :
      b.encode_address s.sender ≢ b.encode_address s.party1
      → b.encode_address s.sender ≢ b.encode_address s.party2
      → b.encode_address s.party1 ≢ b.encode_address s.party2
      → (handle_exchange f fee now r ≡ ok exchange_response)
        × (run_handler now nano exchange_transaction (Message.settlement exchanged) r.contract
            ≡ ok exchange_contract)
        × (balance_of exchange_contract m.party1_asset_id (b.encode_address s.party1)
            ≡ balance_of r.contract m.party1_asset_id (b.encode_address s.party1))
        × (balance_of exchange_contract m.party1_asset_id (b.encode_address s.sender)
            ≡ balance_of r.contract m.party1_asset_id (b.encode_address s.party1)
              - m.party1_token_qty)
  exchange_misplaces other apart different =
      let one = b.encode_address s.party1 in
      let two = b.encode_address s.party2 in
      let payer = b.encode_address s.sender in
      (
        handle_exchange_ready,
        run_handler-exchange,
        ground (arith, balance-exchange one, bytes_eq_iff one payer, bytes_eq_iff one two),
        ground (arith, balance-exchange payer, bytes_eq_iff payer two, bytes_eq_refl payer),
      )

  -- An exchange that is ready (`ExchangeReady`), and whose first sender, second receiver and third
  -- receiver have one address, is answered and carried out: the balance of that address rises by the
  -- quantity in `uint64`.
  pub exchange_mints :
      b.encode_address s.sender ≡ b.encode_address s.party1
      → b.encode_address s.party1 ≡ b.encode_address s.party2
      → (handle_exchange f fee now r ≡ ok exchange_response)
        × (run_handler now nano exchange_transaction (Message.settlement exchanged) r.contract
            ≡ ok exchange_contract)
        × (balance_of exchange_contract m.party1_asset_id (b.encode_address s.party1)
            ≡ (balance_of r.contract m.party1_asset_id (b.encode_address s.party1)
                + m.party1_token_qty)
              % 2 ^ 64)
  exchange_mints same equal = (
    handle_exchange_ready,
    run_handler-exchange,
    ground (
      arith,
      balance-exchange (b.encode_address s.party1),
      bytes_eq_refl (b.encode_address s.party1),
    ),
  )
