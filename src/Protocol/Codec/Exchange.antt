-- ===== src/Protocol/Codec/Exchange.antt =====
-- `Exchange` in `pkg/protocol/messages.go`: what its `Bytes`, `Write` and `Len` do.
use smart_contract.Prelude.{ℕ, ◌+◌, ◌≡◌, refl, List, [], ◌∷◌, length, ascii, arith}
use smart_contract.Protocol.Requests.{Exchange}
use smart_contract.Protocol.Responses.{protocol_id}
use smart_contract.Protocol.Codec.{trim, Chunk, text, word, Statement, trimmed, number}
use smart_contract.Protocol.Codec.Laws.{header_shape}
use smart_contract.Protocol.Codec.Interface.{Format, Codec}

-- `NewExchange`
abbrev pub new_exchange : Exchange
new_exchange = record {
  header = 0x6a ∷ 0x4c ∷ 0x67 ∷ [];
  protocol_id = protocol_id;
  action_prefix = ascii "T2";
  version = 0;
  party1_asset_type = [];
  party1_asset_id = [];
  party1_token_qty = 0;
  offer_valid_until = 0;
  exchange_fee_currency = [];
  exchange_fee_var = 0;
  exchange_fee_fixed = 0;
  exchange_fee_address = [];
}

-- The values that `Bytes` writes, in its order.
unfoldable pub exchange_writes : Exchange → List Chunk
exchange_writes m =
    text m.header (length m.header)
    ∷ word 4 m.protocol_id
    ∷ text m.action_prefix 2
    ∷ word 1 m.version
    ∷ text m.party1_asset_type 3
    ∷ text m.party1_asset_id 32
    ∷ word 8 m.party1_token_qty
    ∷ word 8 m.offer_valid_until
    ∷ text m.exchange_fee_currency 3
    ∷ word 4 m.exchange_fee_var
    ∷ word 4 m.exchange_fee_fixed
    ∷ text m.exchange_fee_address 34
    ∷ []

-- The fields that `Write` reads, in its order.
unfoldable pub exchange_reads : List (Statement Exchange)
exchange_reads =
    trimmed 3 (λ m v. record m { header = v })
    ∷ number 4 (λ m v. record m { protocol_id = v })
    ∷ trimmed 2 (λ m v. record m { action_prefix = v })
    ∷ number 1 (λ m v. record m { version = v })
    ∷ trimmed 3 (λ m v. record m { party1_asset_type = v })
    ∷ trimmed 32 (λ m v. record m { party1_asset_id = v })
    ∷ number 8 (λ m v. record m { party1_token_qty = v })
    ∷ number 8 (λ m v. record m { offer_valid_until = v })
    ∷ trimmed 3 (λ m v. record m { exchange_fee_currency = v })
    ∷ number 4 (λ m v. record m { exchange_fee_var = v })
    ∷ number 4 (λ m v. record m { exchange_fee_fixed = v })
    ∷ trimmed 34 (λ m v. record m { exchange_fee_address = v })
    ∷ []

-- What a reader of the bytes of m has: m, with its texts trimmed.
abbrev pub exchange_as_read : Exchange → Exchange
exchange_as_read m = record {
  header = trim m.header;
  protocol_id = m.protocol_id;
  action_prefix = trim m.action_prefix;
  version = m.version;
  party1_asset_type = trim m.party1_asset_type;
  party1_asset_id = trim m.party1_asset_id;
  party1_token_qty = m.party1_token_qty;
  offer_valid_until = m.offer_valid_until;
  exchange_fee_currency = trim m.exchange_fee_currency;
  exchange_fee_var = m.exchange_fee_var;
  exchange_fee_fixed = m.exchange_fee_fixed;
  exchange_fee_address = trim m.exchange_fee_address;
}

unfoldable pub exchange_len : Exchange → ℕ
exchange_len m = length m.header + 103

unfoldable pub exchange_format : Format Exchange
unfolding exchange_writes exchange_reads exchange_len
exchange_format = record {
  writes = exchange_writes;
  reads = exchange_reads;
  count = 106;
  len = exchange_len;
  Sized = λ m. length m.header ≡ 3;
  agree = λ m sized. header_shape _ sized;
  as_read = exchange_as_read;
  reads_back = λ old m. refl;
  len-count = λ m sized. omega (arith, sized);
  total-count = refl;
}

unfoldable pub exchange_codec : Codec Exchange
unfolding exchange_format
exchange_codec = record {
  format = exchange_format;
  new = new_exchange;
  header = λ m. m.header;
  action_prefix = λ m. m.action_prefix;
  head_of = λ m. (_, _, refl);
  count_long = omega arith;
}
