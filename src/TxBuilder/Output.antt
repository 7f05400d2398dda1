-- ===== src/TxBuilder/Output.antt =====
-- `tx_output.go`, `tx_output_type.go` and `utxo.go`: outputs to write and outputs to spend.
use smart_contract.Prelude.{
  ℕ, ◌+◌, ◌%◌, ◌^◌, Bytes, ◌==◌, ltb, if◌then◌else◌, Option, none, some, length, take, drop,
  Outcome, Error, ok, err, panic, ◌>>=◌, index, or_err, bytes_eq, List, [], ◌∷◌,
}
use smart_contract.Btcutil.{Btcutil}
use smart_contract.Wire.{Wire}

pub data OutputType : Type 0 where
  p2pk op_return : OutputType

-- A `btcutil.Address` is an interface value, so an output may have none. `payload` is `Data`.
pub record TxOutput (Addr : Type 0) : Type 0 where
  pub type : OutputType
  pub pk_script : Bytes
  pub pk_hash : Bytes
  pub address : Option Addr
  pub index : ℕ
  pub value : ℕ
  pub transaction_hash : Bytes
  pub payload : Bytes

-- `TxOutput{Address: a, Value: v}`
abbrev pub pay_to : {Addr : Type 0} → Addr → ℕ → TxOutput Addr
pay_to a v = record {
  type = OutputType.p2pk;
  pk_script = [];
  pk_hash = [];
  address = some a;
  index = 0;
  value = v;
  transaction_hash = [];
  payload = [];
}

-- A method call on the address of an output panics if there is none.
abbrev pub address_of : {Addr : Type 0} → TxOutput Addr → Outcome Addr
address_of o = elim o.address [ none ↦ panic | some a ↦ ok a ]

pub record Utxo : Type 0 where
  pub hash : Bytes
  pub pk_script : Bytes
  pub index : ℕ
  pub value : ℕ

-- `NewUTXOFromTX`; an output that the transaction has not is a panic.
unfoldable pub new_utxo_from_tx : {MsgTx : Type 0} ⦃w : Wire MsgTx⦄ → MsgTx → ℕ → Outcome Utxo
new_utxo_from_tx ⦃w⦄ tx n = do
  out ← index (w.tx_out tx) n
  ok (record { hash = w.tx_hash tx; index = n; pk_script = out.pk_script; value = out.value })

abbrev pub op_dup : ℕ
op_dup = 0x76

abbrev pub op_hash160 : ℕ
op_hash160 = 0xa9

module _ {Addr : Type 0} ⦃b : Btcutil Addr⦄ where
  -- `NewAddressPubKeyHash(s[3:23], params)`; a script without those bytes is a panic.
  unfoldable pub hash_address : Bytes → Outcome Addr
  hash_address s =
      if ltb (length s) 23
      then panic
      else or_err (b.address_of_hash (take 20 (drop 3 s))) Error.external

  -- The three tests are joined by `&&`, left to right.
  unfoldable pub public_address : Utxo → Outcome Addr
  public_address u = if length u.pk_script == 25 then hash_address u.pk_script else do
    x ← index u.pk_script 0
    if x == op_dup then hash_address u.pk_script else do
      y ← index u.pk_script 1
      if y == op_hash160 then hash_address u.pk_script else err Error.invalid_pk_script

-- `UTXOs.Value`, a sum in `uint64`.
unfoldable pub value_from : ℕ → List Utxo → ℕ
value_from v [] = v
value_from v (u ∷ us) = value_from ((v + u.value) % 2 ^ 64) us

unfoldable pub utxos_value : List Utxo → ℕ
unfolding value_from
utxos_value us = value_from 0 us

module _ {Addr : Type 0} ⦃b : Btcutil Addr⦄ where
  -- `UTXOs.Addresses`
  unfoldable pub addresses : List Utxo → Outcome (List Addr)
  addresses [] = ok []
  addresses (u ∷ us) = do a ← public_address u; rest ← addresses us; ok (a ∷ rest)

  -- `UTXOs.ForAddress`
  unfoldable pub for_address : List Utxo → Addr → Outcome (List Utxo)
  for_address [] address = ok []
  for_address (u ∷ us) address = do
    a ← public_address u
    rest ← for_address us address
    ok (if bytes_eq (b.to_string a) (b.to_string address) then u ∷ rest else rest)
