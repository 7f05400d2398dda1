-- ===== src/Btcutil.antt =====
-- `btcutil`, which is not part of the repository: addresses and their text. A client takes the
-- type of addresses and these operations, and a theorem names what it relies on of them.
use smart_contract.Prelude.{Bytes, Option}

-- `decode_address s` is `DecodeAddress(s, &chaincfg.MainNetParams)`, `address_of_hash h` is
-- `NewAddressPubKeyHash(h, &chaincfg.MainNetParams)`; `none` is an error.
pub record Btcutil (Addr : Type 0) : Type 0 where
  pub encode_address : Addr → Bytes
  pub to_string : Addr → Bytes
  pub decode_address : Bytes → Option Addr
  pub address_of_hash : Bytes → Option Addr
