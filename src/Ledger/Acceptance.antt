-- ===== src/Ledger/Acceptance.antt =====
-- What the validator of a send accepts, the handler of a send answers.
use smart_contract.Prelude.{
  ℕ, Bytes, bytes_eq, bytes_eq_iff, bytes_key, not, some, List, ◌≡◌, refl, ok, arith, ltb,
  get_elem?, length, >>=-eq-ok, >>-eq-ok, or_err-eq-ok, index-eq-ok, require-eq-ok, rejected,
  get_elem?-first, get_elem?-second, ◌∙◌,
}
use smart_contract.Prelude.Dict.{get-eq-some}
use smart_contract.Protocol.{Message, Send}
use smart_contract.Protocol.RejectionCode
use smart_contract.Btcutil.{Btcutil}
use smart_contract.TxBuilder.{TxOutput, Utxo, address_of}
use smart_contract.State.{Contract}
use smart_contract.Inspector.{Transaction, create_transaction}
use smart_contract.Request.Defs.{Fee, ContractRequest, ContractResponse}
use smart_contract.Request.Transfer.{handle_send}
use smart_contract.Response.Service.{run_handler}
use smart_contract.Validator.Transfer.{validate_send, in_force}
use smart_contract.Ledger.Balance.{balance_of}
use smart_contract.Ledger.Transfers.{
  SendReady, moved, send_settles, send_response, settled, send_contract,
}

address_of-eq-ok :
    {Addr : Type 0} (o : TxOutput Addr) {a : Addr} → address_of o ≡ ok a → o.address ≡ some a
address_of-eq-ok o h = ground arith

module _ {Addr MsgTx : Type 0} ⦃b : Btcutil Addr⦄ (now : ℕ) (itx : Transaction Addr MsgTx) where
  validate_send-ready :
      (r : ContractRequest Addr MsgTx) (m : Send) (contract : Addr)
      → r.senders ≡ itx.input_addrs
      → r.receivers ≡ itx.outputs
      → r.m ≡ Message.send m
      → b.decode_address r.contract.id ≡ some contract
      → validate_send now itx r.contract (Message.send m) ≡ ok tt
      → SendReady b r m
  unfolding validate_send
  validate_send-ready r m contract hs hr hm answers h =
      let (asset, e1, h1) = >>=-eq-ok _ _ h in
      let (holdings, e2, h2) = >>=-eq-ok _ _ h1 in
      let (sender, e3, h3) = >>=-eq-ok _ _ h2 in
      let (party1, e4, h4) = >>=-eq-ok _ _ h3 in
      let (e5, h5) = >>-eq-ok (not (ltb party1.balance m.token_qty)) _ _ h4 in
      let (e6, h6) = >>-eq-ok (not (in_force now party1.holding_status)) _ _ h5 in
      let (e7, h7) = >>-eq-ok (not (ltb (length itx.outputs) 2)) _ _ h6 in
      let (receiver, e8, h8) = >>=-eq-ok _ _ h7 in
      let (address, e9, h9) = >>=-eq-ok _ _ h8 in
      let (assets, a1, a2) = get-eq-some m.asset_id r.contract.assets (or_err-eq-ok _ _ e1) in
      let (senders, s1) = get_elem?-first itx.input_addrs (index-eq-ok itx.input_addrs 0 e3) in
      let (out0, others, o1) = get_elem?-second itx.outputs (index-eq-ok itx.outputs 1 e8) in
      record {
        asset = asset;
        assets = assets;
        holdings = holdings;
        party1 = party1;
        sender = sender;
        receiver = address;
        contract = contract;
        out0 = out0;
        out1 = receiver;
        others = others;
        senders = senders;
        is_send = hm;
        has_assets = a1;
        has_asset = a2;
        has_holdings = or_err-eq-ok _ _ e2;
        sends = hs ∙ s1;
        holds = or_err-eq-ok _ _ e4;
        covers = ground (arith, e5);
        receives = hr ∙ o1;
        reaches = address_of-eq-ok receiver e9;
        apart =
            let sent = b.encode_address sender in
            let got = b.encode_address address in
            ground (
              arith,
              require-eq-ok (not (bytes_eq sent got)) (rejected RejectionCode.transfer_self) h9,
              bytes_eq_iff sent got,
            );
        answers = answers;
      }

-- What became of an accepted send: the two services succeed, and the balances of the asset have
-- moved from the sender to the receiver.
pub record Settled {Addr MsgTx : Type 0} ⦃b : Btcutil Addr⦄ (fee : Fee Addr) (now nano : ℕ)
    (utxos : List Utxo) (r : ContractRequest Addr MsgTx) (m : Send) : Type 0 where
  pub response : ContractResponse Addr
  pub reply : Message
  pub after : Contract
  pub sender : Addr
  pub receiver : TxOutput Addr
  pub address : Addr
  pub sends : get_elem? r.senders 0 ≡ some sender
  pub receives : get_elem? r.receivers 1 ≡ some receiver
  pub reaches : receiver.address ≡ some address
  pub handled : handle_send fee now r ≡ ok response
  pub replied : response.message ≡ some reply
  pub carried_out :
      run_handler {MsgTx = MsgTx} now nano
        (create_transaction utxos response.outs response.message)
        reply
        r.contract
      ≡ ok after
  pub balances :
      (addr : Bytes)
      → balance_of after m.asset_id addr
        ≡ moved m.token_qty
            (b.encode_address sender)
            (b.encode_address address)
            (balance_of r.contract m.asset_id)
            addr

module _ {Addr MsgTx : Type 0} ⦃b : Btcutil Addr⦄ (fee : Fee Addr) (now nano : ℕ)
    (utxos : List Utxo) where
  ready-Settled :
      {r : ContractRequest Addr MsgTx} {m : Send} → SendReady b r m → Settled fee now nano utxos r m
  ready-Settled s =
      let (handled, carried_out, balances) = send_settles fee now nano s utxos in
      record {
        response = send_response fee now nano s;
        reply = Message.settlement (settled fee now nano s);
        after = send_contract fee now nano s utxos;
        sender = s.sender;
        receiver = s.out1;
        address = s.receiver;
        sends = rw s.sends;
        receives = rw s.receives;
        reaches = s.reaches;
        handled = handled;
        replied = refl;
        carried_out = carried_out;
        balances = balances;
      }

  -- A send that the validator accepts, on a contract whose identifier decodes to an address, is
  -- answered by the request service and carried out by the response service: the sender's balance
  -- falls by the quantity, the receiver's rises by it in `uint64`, and every other address of the
  -- asset keeps its balance.
  pub accepted_send-Settled :
      (itx : Transaction Addr MsgTx) (r : ContractRequest Addr MsgTx) (m : Send) (contract : Addr)
      → r.senders ≡ itx.input_addrs
      → r.receivers ≡ itx.outputs
      → r.m ≡ Message.send m
      → b.decode_address r.contract.id ≡ some contract
      → validate_send now itx r.contract (Message.send m) ≡ ok tt
      → Settled fee now nano utxos r m
  accepted_send-Settled itx r m contract hs hr hm answers h =
      ready-Settled (validate_send-ready now itx r m contract hs hr hm answers h)
