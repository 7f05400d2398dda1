-- ===== src/Wire.antt =====
-- `pkg/wire`, a copy of another project's library, as the operations that the agent calls on a
-- transaction. A transaction is a value of the parameter `MsgTx`.
use smart_contract.Prelude.{ℕ, Bytes, List}

-- `value` is the bit pattern of an `int64`, which `uint64(txOut.Value)` reads.
pub record TxOut : Type 0 where
  pub value : ℕ
  pub pk_script : Bytes

pub record OutPoint : Type 0 where
  pub hash : Bytes
  pub index : ℕ

-- `tx_hash_string` is `tx.TxHash().String()`.
pub record Wire (MsgTx : Type 0) : Type 0 where
  pub tx_hash : MsgTx → Bytes
  pub tx_hash_string : MsgTx → Bytes
  pub tx_out : MsgTx → List TxOut
  pub previous_out_points : MsgTx → List OutPoint
