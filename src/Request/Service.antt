-- ===== src/Request/Service.antt =====
-- `request_service.go`: the filter before validation and the dispatch to a handler.
use smart_contract.Prelude.{
  ℕ, Bool, true, false, if◌then◌else◌, Option, none, some, [], ◌∷◌, Outcome, Error, ok, err, panic,
  ◌>>=◌, index,
}
use smart_contract.Protocol.{Code, Message, type_of}
use smart_contract.Btcutil.{Btcutil}
use smart_contract.Wire.{Wire}
use smart_contract.TxBuilder.{address_of, for_address}
use smart_contract.State.{Contract}
use smart_contract.Inspector.{Transaction, create_transaction}
use smart_contract.Wallet.{Wallet}
use smart_contract.Request.Defs.{Fee, ContractRequest, ContractResponse}
use smart_contract.Request.Transfer.{Floats, handle_send, handle_exchange}
use smart_contract.Request.Orders.{handle_order}
use smart_contract.Request.Formation.{
  handle_contract_offer, handle_contract_amendment, handle_asset_definition,
  handle_asset_modification,
}

-- `incomingMessageTypes`
abbrev pub is_incoming : Code → Bool
is_incoming Code.c1 = true
is_incoming Code.c3 = true
is_incoming Code.a1 = true
is_incoming Code.a3 = true
is_incoming Code.t1 = true
is_incoming Code.t2 = true
is_incoming Code.g1 = true
is_incoming Code.g2 = true
is_incoming Code.g4 = true
is_incoming Code.e1 = true
is_incoming _ = false

-- The message of a transaction; `msg.Type()` on a nil message is a panic.
abbrev pub message_of : {Addr MsgTx : Type 0} → Transaction Addr MsgTx → Outcome Message
message_of itx = elim itx.msg_proto [ none ↦ panic | some m ↦ ok m ]

abbrev pub tx_of : {Addr MsgTx : Type 0} → Transaction Addr MsgTx → Outcome MsgTx
tx_of itx = elim itx.msg_tx [ none ↦ panic | some tx ↦ ok tx ]

module _ {Addr MsgTx Key : Type 0} ⦃b : Btcutil Addr⦄ (wallet : Wallet Addr MsgTx Key) where
  -- `ok none` is the `nil, nil` of a message that is not a request.
  unfoldable pub pre_filter : Transaction Addr MsgTx → Outcome (Option (Transaction Addr MsgTx))
  pre_filter itx = do
    m ← message_of itx
    if is_incoming (type_of m)
        then elim itx.outputs [
          | [] ↦ err Error.no_outputs
          | o ∷ rest ↦ do a ← address_of o; key ← wallet.get (b.to_string a); ok (some itx)
        ]
        else ok none

module _ {Addr MsgTx : Type 0} ⦃b : Btcutil Addr⦄ (f : Floats) (fee : Fee Addr) (now : ℕ) where
  -- `s.handlers[msg.Type()]` and the call of the handler.
  unfoldable pub run_handler : Code → ContractRequest Addr MsgTx → Outcome (ContractResponse Addr)
  run_handler Code.c1 r = handle_contract_offer fee r
  run_handler Code.c3 r = handle_contract_amendment fee r
  run_handler Code.a1 r = handle_asset_definition fee r
  run_handler Code.a3 r = handle_asset_modification fee r
  run_handler Code.t1 r = handle_send fee now r
  run_handler Code.t2 r = handle_exchange f fee now r
  run_handler Code.e1 r = handle_order fee now r
  run_handler _ r = err Error.no_handler

-- The default change address is the first sender.
abbrev pub change_or : {Addr : Type 0} → Option Addr → Addr → Addr
change_or none sender = sender
change_or (some a) sender = a

module _ {Addr MsgTx Key : Type 0} ⦃b : Btcutil Addr⦄ ⦃w : Wire MsgTx⦄
    (wallet : Wallet Addr MsgTx Key) (f : Floats) (fee : Fee Addr) (now : ℕ) where
  -- `Process`. The hash that the source appends to `res.Contract.Hashes` is written to the copy of
  -- the contract in the response, which is dropped here as there: only the new transaction returns.
  unfoldable pub process : Transaction Addr MsgTx → Contract → Outcome (Transaction Addr MsgTx)
  process itx contract = do
    tx ← tx_of itx
    m ← message_of itx
    res ← run_handler f fee now (type_of m) (record {
      tx = tx;
      hash = w.tx_hash tx;
      senders = itx.input_addrs;
      receivers = itx.outputs;
      contract = contract;
      m = m;
    })
    receiver ← index itx.outputs 0
    contract_address ← address_of receiver
    utxos ← for_address itx.utxos contract_address
    sender ← index itx.input_addrs 0
    key ← wallet.get (b.to_string contract_address)
    new_tx ← wallet.build_tx key utxos res.outs (change_or res.change_address sender) res.message
    let new_itx = create_transaction utxos res.outs res.message
    ok (record new_itx { msg_tx = some new_tx })
