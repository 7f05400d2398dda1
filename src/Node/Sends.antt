-- ===== src/Node/Sends.antt =====
-- A send at the node: the services on one another's results.
use smart_contract.Prelude.{
  ℕ, Bytes, none, some, List, ◌∷◌, ◌≡◌, refl, sym, ◌∙◌, subst, get_elem?, ok, arith,
}
use smart_contract.Protocol.{Message, Send}
use smart_contract.Btcutil.{Btcutil}
use smart_contract.Wire.{Wire}
use smart_contract.TxBuilder.{TxOutput, Utxo, for_address}
use smart_contract.State.{Contract}
use smart_contract.Inspector.{Transaction, create_transaction}
use smart_contract.Request.Defs.{ContractRequest, ContractResponse}
use smart_contract.Request.Transfer.{handle_send}
use smart_contract.Request.Service.{process, change_or, run_handler}
use smart_contract.Response.Service as Response
use smart_contract.Validator.Transfer.{validate_send}
use smart_contract.Validator.Service.{Verdict, check_and_fetch, run_validator}
use smart_contract.Validator.Acceptance.{Accepted, check_and_fetch-Accepted}
use smart_contract.Ledger.Balance.{balance_of}
use smart_contract.Ledger.Transfers.{moved}
use smart_contract.Ledger.Acceptance.{Settled, accepted_send-Settled}
use smart_contract.Response.Frame.{run_handler-msg_tx}
use smart_contract.Node.{Services, World, act}

module _ {Addr MsgTx Key Store : Type 0} ⦃b : Btcutil Addr⦄ ⦃w : Wire MsgTx⦄
    (s : Services Addr MsgTx Key Store) (now nano : ℕ) (itx : Transaction Addr MsgTx) (c : Contract)
    (m : Send) where
  -- The request that the request service makes of the transaction.
  abbrev pub send_request : MsgTx → ContractRequest Addr MsgTx
  send_request tx = record {
    tx = tx;
    hash = w.tx_hash tx;
    senders = itx.input_addrs;
    receivers = itx.outputs;
    contract = c;
    m = Message.send m;
  }

  validate_send-Accepted :
      (store : Store)
      → itx.msg_proto ≡ some (Message.send m)
      → Accepted s.state s.wallet now nano itx store c
      → validate_send now itx c (Message.send m) ≡ ok tt
  unfolding run_validator
  validate_send-Accepted store is_send a =
      subst (λ o. elim o [ none ↦ Unit | some x ↦ run_validator now itx c x ≡ ok tt ])
        (sym a.has_message ∙ is_send) a.checked.valid

module _ {Addr MsgTx Key Store : Type 0} ⦃b : Btcutil Addr⦄ ⦃w : Wire MsgTx⦄
    (s : Services Addr MsgTx Key Store) (now nano : ℕ) (itx : Transaction Addr MsgTx) (c : Contract)
    (m : Send) (world : World MsgTx Store) where
  -- What became of a send at the node: a contract was stored and a response announced, and the
  -- balances of the asset have moved.
  pub record CarriedOut : Type 0 where
    pub after : Contract
    pub store : Store
    pub reply : MsgTx
    pub sender : Addr
    pub receiver : TxOutput Addr
    pub address : Addr
    pub sends : get_elem? itx.input_addrs 0 ≡ some sender
    pub receives : get_elem? itx.outputs 1 ≡ some receiver
    pub reaches : receiver.address ≡ some address
    pub wrote : s.state.write after world.store ≡ ok store
    pub acted :
        act s now nano itx world (Verdict.accept c)
        ≡ ok (record { store = store; announced = reply ∷ world.announced })
    pub balances :
        (addr : Bytes)
        → balance_of after m.asset_id addr
          ≡ moved m.token_qty
              (b.encode_address sender)
              (b.encode_address address)
              (balance_of c m.asset_id)
              addr

  module _ (tx : MsgTx) (utxos : List Utxo) (has_tx : itx.msg_tx ≡ some tx)
      (st : Settled s.fee now nano utxos (send_request s now nano itx c m tx) m) where
    process-send :
        {key : Key} {reply : MsgTx} {address : Addr} {first : TxOutput Addr}
        → itx.msg_proto ≡ some (Message.send m)
        → get_elem? itx.outputs 0 ≡ some first
        → first.address ≡ some address
        → for_address itx.utxos address ≡ ok utxos
        → s.wallet.get (b.to_string address) ≡ ok key
        → s.wallet.build_tx key utxos st.response.outs
            (change_or st.response.change_address st.sender)
            st.response.message
          ≡ ok reply
        → process s.wallet s.floats s.fee now itx c
          ≡ ok (record (create_transaction utxos st.response.outs st.response.message) {
            msg_tx = some reply;
          })
    unfolding process run_handler
    process-send is_send first pays received keyed built =
        ground (arith, has_tx, is_send, first, pays, received, keyed, built, st.handled, st.sends)

    process-response :
        (reply : MsgTx) {store : Store}
        → s.state.write st.after world.store ≡ ok store
        → Response.process s.state now nano
            (record (create_transaction utxos st.response.outs st.response.message) {
              msg_tx = some reply;
            })
            c
            world.store
          ≡ ok store
    unfolding Response.process
    process-response reply wrote =
        let res : Transaction Addr MsgTx =
          create_transaction utxos st.response.outs st.response.message in
        ground (
          arith,
          wrote,
          st.replied,
          st.carried_out,
          run_handler-msg_tx now nano res (some reply) st.reply c,
        )

  -- A send that `CheckAndFetch` accepts, for a contract whose identifier decodes to an address, is
  -- carried out where the wallet has the key of the address that was paid, `BuildTX` builds the
  -- transaction of the answer from what that address received, and the store takes every contract: the
  -- contract with the settled balances is written, and one response is announced. The quantity moves
  -- from the first sender to the second receiver in `uint64`, and every other address keeps its
  -- balance.
  pub accepted_send-CarriedOut :
      (contract : Addr)
      → check_and_fetch s.state s.wallet now nano itx world.store ≡ ok (Verdict.accept c)
      → itx.msg_proto ≡ some (Message.send m)
      → b.decode_address c.id ≡ some contract
      → (output : TxOutput Addr) (address : Addr) (utxos : List Utxo) (key : Key)
      → get_elem? itx.outputs 0 ≡ some output
      → output.address ≡ some address
      → for_address itx.utxos address ≡ ok utxos
      → s.wallet.get (b.to_string address) ≡ ok key
      → ((tx : MsgTx) (response : ContractResponse Addr) (sender : Addr)
          → itx.msg_tx ≡ some tx
          → handle_send s.fee now (send_request s now nano itx c m tx) ≡ ok response
          → get_elem? itx.input_addrs 0 ≡ some sender
          → (reply : MsgTx) × (s.wallet.build_tx key utxos response.outs
                (change_or response.change_address sender)
                response.message
              ≡ ok reply))
      → ((after : Contract) → (later : Store) × (s.state.write after world.store ≡ ok later))
      → CarriedOut
  unfolding act
  accepted_send-CarriedOut contract accepted is_send answers output address utxos key first pays
        received keyed builds writes =
      let a = check_and_fetch-Accepted s.state s.wallet now nano itx world.store accepted in
      let tx = a.checked.tx in
      let st =
        accepted_send-Settled s.fee now nano utxos itx (send_request s now nano itx c m tx) m
          contract refl refl refl answers
          (validate_send-Accepted s now nano itx c m world.store is_send a) in
      let (reply, built) = builds tx st.response st.sender a.checked.has_tx st.handled st.sends in
      let (store, wrote) = writes st.after in
      let processed =
        process-send tx utxos a.checked.has_tx st is_send first pays received keyed built in
      let responded = process-response tx utxos a.checked.has_tx st reply wrote in
      record {
        after = st.after;
        store = store;
        reply = reply;
        sender = st.sender;
        receiver = st.receiver;
        address = st.address;
        sends = st.sends;
        receives = st.receives;
        reaches = st.reaches;
        wrote = wrote;
        acted = rw processed (rw responded refl);
        balances = st.balances;
      }
