-- ===== src/Inspector.antt =====
-- `internal/app/inspector` and `utxo_set_builder.go`: the transaction object that the services pass
-- on, and how it is filled from the network's transaction.
use smart_contract.Prelude.{
  ℕ, suc, ltb, ◌==◌, if◌then◌else◌, Bytes, bytes_eq, Bool, false, Option, none, some, List, [], ◌∷◌,
  length, take, drop, get_elem?, Outcome, Error, ok, err, panic, ◌>>=◌,
}
use smart_contract.Protocol.{Message}
use smart_contract.Btcutil.{Btcutil}
use smart_contract.Wire.{Wire, TxOut, OutPoint}
use smart_contract.TxBuilder.{TxOutput, Utxo, pay_to, public_address, new_utxo_from_tx, addresses}

-- `inspector.Transaction`
pub record Transaction (Addr MsgTx : Type 0) : Type 0 where
  pub hash : Bytes
  pub input_addrs : List Addr
  pub inputs : List Utxo
  pub utxos : List Utxo
  pub outputs : List (TxOutput Addr)
  pub msg_tx : Option MsgTx
  pub msg_proto : Option Message

-- `CreateTransaction`, which leaves the transaction itself out.
abbrev pub create_transaction :
    {Addr MsgTx : Type 0}
    → List Utxo
    → List (TxOutput Addr)
    → Option Message
    → Transaction Addr MsgTx
create_transaction inputs outputs msg = record {
  hash = [];
  input_addrs = [];
  inputs = inputs;
  utxos = [];
  outputs = outputs;
  msg_tx = none;
  msg_proto = msg;
}

abbrev pub target_version : Bytes
target_version = 0x0 ∷ 0x0 ∷ 0x0 ∷ 0x20 ∷ []

-- The byte at an index that is in range.
abbrev pub byte_at : Bytes → ℕ → ℕ
byte_at s i = elim (get_elem? s i) [ none ↦ 0 | some x ↦ x ]

-- `isTokenizedOpReturn`: at least 20 bytes, so the slices are in range.
unfoldable pub is_tokenized_op_return : Bytes → Bool
is_tokenized_op_return s =
    if ltb (length s) 20
    then false
    else bytes_eq (if ltb (byte_at s 1) 0x4c then take 4 (drop 2 s) else take 4 (drop 3 s))
        target_version

-- `parse` is `protocol.New`.
unfoldable pub new_protocol_message : (Bytes → Outcome Message) → TxOut → Outcome Message
new_protocol_message parse out =
    if byte_at out.pk_script 0 == 0x6a then parse out.pk_script else err Error.not_op_return

-- `findTokenizedProtocol`: the first output that looks like a message decides. `protocol.New`
-- returns no nil message without an error.
unfoldable pub find_tokenized_protocol :
    (Bytes → Outcome Message) → List TxOut → Outcome (Option Message)
unfolding new_protocol_message
find_tokenized_protocol parse [] = ok none
find_tokenized_protocol parse (out ∷ outs) =
    let rest = find_tokenized_protocol parse outs in
    if is_tokenized_op_return out.pk_script
    then (do m ← new_protocol_message parse out; ok (some m))
    else rest

module _ {Addr MsgTx : Type 0} ⦃b : Btcutil Addr⦄ ⦃w : Wire MsgTx⦄ where
  -- `getOutputs`, from the output with index i on.
  unfoldable pub get_outputs_from : MsgTx → ℕ → List TxOut → Outcome (List (TxOutput Addr))
  get_outputs_from tx i [] = ok []
  get_outputs_from tx i (out ∷ outs) =
      let rest = get_outputs_from tx (suc i) outs in
      if out.value == 0 then rest else do
        utxo ← new_utxo_from_tx tx i
        address ← public_address utxo
        others ← rest
        let output = pay_to address out.value
        ok (record output { index = i } ∷ others)

  unfoldable pub make_transaction :
      (Bytes → Outcome Message) → MsgTx → Outcome (Option (Transaction Addr MsgTx))
  unfolding find_tokenized_protocol get_outputs_from
  make_transaction parse tx = do
    found ← find_tokenized_protocol parse (w.tx_out tx)
    elim found [
      | none ↦ ok none
      | some msg ↦ do
        outputs ← get_outputs_from tx 0 (w.tx_out tx)
        ok (
            some (record {
              hash = [];
              input_addrs = [];
              inputs = [];
              utxos = [];
              outputs = outputs;
              msg_tx = some tx;
              msg_proto = some msg;
            }))
    ]

module _ {MsgTx : Type 0} ⦃w : Wire MsgTx⦄ where
  -- `UTXOSetBuilder.Build`: the outputs that the inputs spend, from the transactions that
  -- `get_tx`, the network's `GetTX`, returns.
  unfoldable pub build_inputs : (Bytes → Outcome MsgTx) → List OutPoint → Outcome (List Utxo)
  build_inputs get_tx [] = ok []
  build_inputs get_tx (p ∷ ps) = do
    raw ← get_tx p.hash
    utxo ← new_utxo_from_tx raw p.index
    rest ← build_inputs get_tx ps
    ok (utxo ∷ rest)

  -- `BuildFromOutputs`, from the output with index i on.
  unfoldable pub build_from_outputs : MsgTx → ℕ → List TxOut → Outcome (List Utxo)
  build_from_outputs tx i [] = ok []
  build_from_outputs tx i (out ∷ outs) =
      let rest = build_from_outputs tx (suc i) outs in
      if out.value == 0
      then rest
      else do utxo ← new_utxo_from_tx tx i; others ← rest; ok (utxo ∷ others)

module _ {Addr MsgTx : Type 0} ⦃b : Btcutil Addr⦄ ⦃w : Wire MsgTx⦄ where
  -- `PromoteTransaction`; without a transaction it panics.
  unfoldable pub promote_transaction :
      (Bytes → Outcome MsgTx) → Transaction Addr MsgTx → Outcome (Transaction Addr MsgTx)
  unfolding build_inputs build_from_outputs
  promote_transaction get_tx itx = do
    tx ← elim itx.msg_tx [ none ↦ panic | some tx ↦ ok tx ]
    inputs ← build_inputs get_tx (w.previous_out_points tx)
    input_addresses ← addresses inputs
    all_utxos ← build_from_outputs tx 0 (w.tx_out tx)
    ok (record itx { input_addrs = input_addresses; inputs = inputs; utxos = all_utxos })
