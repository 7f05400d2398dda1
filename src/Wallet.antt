-- ===== src/Wallet.antt =====
-- `wallet.WalletInterface` as the services use it, and the key store behind `Get`. Building and
-- signing a transaction is an operation of the interface.
use smart_contract.Prelude.{Bytes, bytes_key, Option, List, Outcome, Error, or_err}
use smart_contract.Prelude.Dict.{Dict, lookup}
use smart_contract.Protocol.{Message}
use smart_contract.TxBuilder.{TxOutput, Utxo}

pub record Wallet (Addr MsgTx Key : Type 0) : Type 0 where
  pub get : Bytes → Outcome Key
  pub build_tx : Key → List Utxo → List (TxOutput Addr) → Addr → Option Message → Outcome MsgTx

-- `KeyStore.Get`
unfoldable pub key_store_get : {Key : Type 0} → Dict Bytes Key → Bytes → Outcome Key
key_store_get keys address = or_err (lookup address keys) Error.key_not_found
