-- ===== src/Ledger/Confiscation.antt =====
-- A confiscation order and its confiscation, from the request handler to the holdings.
use smart_contract.Prelude.{
  leb, ℕ, ◌+◌, ◌%◌, ◌^◌, ◌<◌, Bytes, bytes_eq, bytes_eq_iff, bytes_key, if◌then◌else◌, some, List,
  [], ◌∷◌, ◌≡◌, refl, ◌≢◌, ok, arith, ap,
}
use smart_contract.Prelude.Dict.{Dict, get, lookup}
use smart_contract.Protocol.{Message, Order, dust_limit}
use smart_contract.Protocol.Compliance
use smart_contract.Btcutil.{Btcutil}
use smart_contract.TxBuilder.{Utxo, pay_to}
use smart_contract.State.{Asset, Holding, Contract}
use smart_contract.Inspector.{Transaction, create_transaction}
use smart_contract.Request.Defs.{Fee, ContractRequest, ContractResponse, with_fee}
use smart_contract.Request.Transfer.{balance_or_zero}
use smart_contract.Request.Orders.{taken, confiscation_message, handle_order}
use smart_contract.Response.Handlers.{confiscation_handler}
use smart_contract.Response.Service.{run_handler}
use smart_contract.Ledger.Balance.{
  balance_of, with_holdings, holding_of-with_holdings, set_balances_lem, settled_holdings,
  balance-settled_holdings, supply-settled_holdings, supply_of, supply_of-with_holdings, supply,
}
use smart_contract.Ledger.Transfers.{moved, with_fee-cons}

-- The smaller of two quantities.
abbrev pub least : ℕ → ℕ → ℕ
least held qty = if leb held qty then held else qty

-- What an order must meet to be answered: its asset, the holding of its target, and the three
-- addresses, which the order and the contract name by their encoding.
pub record OrderReady {Addr MsgTx : Type 0} (b : Btcutil Addr) (r : ContractRequest Addr MsgTx)
    (order : Order) : Type 0 where
  pub asset : Asset
  pub assets : Dict Bytes Asset
  pub holdings : Dict Bytes Holding
  pub held : Holding
  pub target : Addr
  pub deposit : Addr
  pub contract : Addr
  pub is_order : r.m ≡ Message.order order
  pub has_assets : r.contract.assets ≡ some assets
  pub has_asset : lookup order.asset_id assets ≡ some asset
  pub has_holdings : asset.holdings ≡ some holdings
  pub holds : lookup order.target_address holdings ≡ some held
  pub finds_target : b.decode_address order.target_address ≡ some target
  pub finds_deposit : b.decode_address order.deposit_address ≡ some deposit
  pub names_target : b.encode_address target ≡ order.target_address
  pub names_deposit : b.encode_address deposit ≡ order.deposit_address
  pub answers : b.decode_address r.contract.id ≡ some contract

module _ {Addr MsgTx : Type 0} ⦃b : Btcutil Addr⦄ (fee : Fee Addr) (now nano : ℕ)
    {r : ContractRequest Addr MsgTx} {order : Order} (s : OrderReady b r order)
    (utxos : List Utxo) where
  abbrev pub confiscation_response : ContractResponse Addr
  confiscation_response = record {
    contract = r.contract;
    message = some (Message.confiscation (confiscation_message now r.contract order));
    outs = with_fee fee (
        pay_to s.target dust_limit
        ∷ pay_to s.deposit dust_limit
        ∷ pay_to s.contract dust_limit
        ∷ []);
    change_address = some s.contract;
  }

  handle_order-confiscation :
      order.compliance_action ≡ Compliance.confiscation
      → handle_order fee now r ≡ ok confiscation_response
  unfolding handle_order
  handle_order-confiscation action = ground (
    arith, s.is_order, s.has_assets, s.has_asset, s.has_holdings, s.holds, s.finds_target,
    s.finds_deposit, s.answers, action,
  )

  abbrev pub confiscation_transaction : Transaction Addr MsgTx
  confiscation_transaction =
      create_transaction utxos confiscation_response.outs confiscation_response.message

  confiscation_outs :
      confiscation_transaction.outputs
      ≡ pay_to s.target dust_limit
        ∷ pay_to s.deposit dust_limit
        ∷ with_fee fee (pay_to s.contract dust_limit ∷ [])
  confiscation_outs =
      with_fee-cons fee (pay_to s.target dust_limit) (pay_to s.deposit dust_limit)
        (pay_to s.contract dust_limit ∷ [])

  -- The holdings and the contract after the confiscation.
  abbrev pub confiscated_holdings : Dict Bytes Holding
  confiscated_holdings =
      let n = confiscation_message now r.contract order in
      settled_holdings now nano (b.encode_address s.target) (b.encode_address s.deposit)
        n.targets_qty n.deposits_qty s.holdings

  abbrev pub confiscated : Contract
  confiscated = with_holdings r.contract order.asset_id s.asset s.assets confiscated_holdings

  found : get order.asset_id r.contract.assets ≡ some s.asset
  found = rw s.has_assets s.has_asset

  run_handler-confiscation :
      run_handler now nano confiscation_transaction
        (Message.confiscation (confiscation_message now r.contract order))
        r.contract
      ≡ ok confiscated
  unfolding run_handler confiscation_handler confiscation_message
  run_handler-confiscation =
      let n = confiscation_message now r.contract order in
      rw found (
        set_balances_lem now nano confiscation_transaction s.target s.deposit confiscation_outs refl
          refl order.asset_id s.asset n.targets_qty n.deposits_qty r.contract s.has_assets
          s.has_holdings)

  balance-before :
      (addr : Bytes)
      → balance_of r.contract order.asset_id addr ≡ balance_or_zero (lookup addr s.holdings)
  balance-before addr = ground (arith, found, s.has_holdings)

  balance-after :
      (addr : Bytes)
      → balance_of confiscated order.asset_id addr ≡ (
          let n = confiscation_message now r.contract order in
          if bytes_eq addr order.deposit_address
          then n.deposits_qty
          else if bytes_eq addr order.target_address
          then n.targets_qty
          else balance_of r.contract order.asset_id addr)
  balance-after addr =
      let n = confiscation_message now r.contract order in
      ground (
        arith,
        ap balance_or_zero (
            holding_of-with_holdings r.contract order.asset_id s.asset s.assets confiscated_holdings
              addr),
        balance-settled_holdings now nano (b.encode_address s.target) (b.encode_address s.deposit)
            n.targets_qty n.deposits_qty s.holdings addr,
        balance-before addr,
        s.names_target,
        s.names_deposit,
      )

  balance-confiscated :
      order.target_address ≢ order.deposit_address
      → (addr : Bytes)
      → balance_of confiscated order.asset_id addr ≡ (
          let before = balance_of r.contract order.asset_id in
          moved
            (least (before order.target_address) order.qty)
            order.target_address
            order.deposit_address
            before
            addr)
  unfolding confiscation_message taken
  balance-confiscated apart addr = ground (
    arith,
    balance-after addr,
    bytes_eq_iff addr order.target_address,
    bytes_eq_iff addr order.deposit_address,
  )

  -- A confiscation order that is ready (`OrderReady`: its asset and the target's holding are there,
  -- its addresses and the contract's identifier decode, and the first two encode to themselves),
  -- with a target other than its deposit, is answered, and its confiscation is carried out: the
  -- target's balance falls by the smaller of the quantity and that balance, the deposit's rises by
  -- as much in `uint64`, and every other address of the asset keeps its balance.
  pub confiscation_settles :
      order.compliance_action ≡ Compliance.confiscation
      → order.target_address ≢ order.deposit_address
      → (handle_order fee now r ≡ ok confiscation_response)
        × (run_handler now nano confiscation_transaction
              (Message.confiscation (confiscation_message now r.contract order))
              r.contract
            ≡ ok confiscated)
        × ((addr : Bytes)
            → balance_of confiscated order.asset_id addr ≡ (
                let before = balance_of r.contract order.asset_id in
                moved
                  (least (before order.target_address) order.qty)
                  order.target_address
                  order.deposit_address
                  before
                  addr))
  confiscation_settles action apart =
      (handle_order-confiscation action, run_handler-confiscation, balance-confiscated apart)

  supply-confiscated :
      order.target_address ≢ order.deposit_address
      → balance_of r.contract order.asset_id order.deposit_address
          + least (balance_of r.contract order.asset_id order.target_address) order.qty
        < 2 ^ 64
      → supply confiscated_holdings ≡ supply s.holdings
  unfolding confiscation_message taken
  supply-confiscated apart fits =
      let n = confiscation_message now r.contract order in
      supply-settled_holdings now nano (b.encode_address s.target) (b.encode_address s.deposit)
        n.targets_qty n.deposits_qty s.holdings (ground (arith, s.names_target, s.names_deposit))
        (ground (
          arith,
          balance-before order.target_address,
          balance-before order.deposit_address,
          s.names_target,
          s.names_deposit,
        ))

  supply-confiscated_contract :
      order.target_address ≢ order.deposit_address
      → balance_of r.contract order.asset_id order.deposit_address
          + least (balance_of r.contract order.asset_id order.target_address) order.qty
        < 2 ^ 64
      → supply_of confiscated order.asset_id ≡ supply_of r.contract order.asset_id
  supply-confiscated_contract apart fits = ground (
    arith,
    supply_of-with_holdings r.contract order.asset_id s.asset s.assets confiscated_holdings,
    supply-confiscated apart fits,
    found,
    s.has_holdings,
  )

  -- A confiscation order that is ready (`OrderReady`: its asset and the target's holding are there,
  -- its addresses and the contract's identifier decode, and the first two encode to themselves) is
  -- answered by the request handler, and its answer is carried out by the response handler. Where
  -- target and deposit differ and the deposit's balance does not overflow, the sum of all balances
  -- of the asset is the same in the contract that this leaves.
  pub confiscation_conserves :
      order.compliance_action ≡ Compliance.confiscation
      → order.target_address ≢ order.deposit_address
      → balance_of r.contract order.asset_id order.deposit_address
          + least (balance_of r.contract order.asset_id order.target_address) order.qty
        < 2 ^ 64
      → (response : ContractResponse Addr) × (reply : Message) × (after : Contract) × (handle_order
            fee now r
          ≡ ok response)
        × (response.message ≡ some reply)
        × (run_handler {MsgTx = MsgTx} now nano
              (create_transaction utxos response.outs response.message)
              reply
              r.contract
            ≡ ok after)
        × (supply_of after order.asset_id ≡ supply_of r.contract order.asset_id)
  confiscation_conserves action apart fits = (
    confiscation_response,
    Message.confiscation (confiscation_message now r.contract order),
    confiscated,
    handle_order-confiscation action,
    refl,
    run_handler-confiscation,
    supply-confiscated_contract apart fits,
  )

  -- A confiscation order that is ready (`OrderReady`: its asset and the target's holding are there,
  -- its addresses and the contract's identifier decode, and the first two encode to themselves), and
  -- whose deposit address is its target, is answered and carried out as well: the balance of the
  -- address rises, in `uint64`, by the smaller of the quantity and that balance.
  pub confiscation_mints :
      order.compliance_action ≡ Compliance.confiscation
      → order.target_address ≡ order.deposit_address
      → (handle_order fee now r ≡ ok confiscation_response)
        × (run_handler now nano confiscation_transaction
              (Message.confiscation (confiscation_message now r.contract order))
              r.contract
            ≡ ok confiscated)
        × (balance_of confiscated order.asset_id order.target_address ≡ (
            let held = balance_of r.contract order.asset_id order.target_address in
            (held + least held order.qty) % 2 ^ 64))
  unfolding confiscation_message taken
  confiscation_mints action same = (
    handle_order-confiscation action,
    run_handler-confiscation,
    ground (
      arith,
      balance-after order.target_address,
      bytes_eq_iff order.target_address order.deposit_address,
    ),
  )
