-- ===== src/Protocol/Codec/Settlement.antt =====
-- `Settlement` in `pkg/protocol/messages.go`: what its `Bytes`, `Write` and `Len` do.
use smart_contract.Prelude.{ℕ, ◌+◌, ◌≡◌, refl, List, [], ◌∷◌, length, arith}
use smart_contract.Protocol.Responses.{Settlement, new_settlement}
use smart_contract.Protocol.Codec.{trim, Chunk, text, word, Statement, trimmed, number}
use smart_contract.Protocol.Codec.Laws.{header_shape}
use smart_contract.Protocol.Codec.Interface.{Format, Codec}

-- The values that `Bytes` writes, in its order.
unfoldable pub settlement_writes : Settlement → List Chunk
settlement_writes m =
    text m.header (length m.header)
    ∷ word 4 m.protocol_id
    ∷ text m.action_prefix 2
    ∷ word 1 m.version
    ∷ text m.asset_type 3
    ∷ text m.asset_id 32
    ∷ word 8 m.party1_token_qty
    ∷ word 8 m.party2_token_qty
    ∷ word 8 m.timestamp
    ∷ []

-- The fields that `Write` reads, in its order.
unfoldable pub settlement_reads : List (Statement Settlement)
settlement_reads =
    trimmed 2 (λ m v. record m { header = v })
    ∷ number 4 (λ m v. record m { protocol_id = v })
    ∷ trimmed 2 (λ m v. record m { action_prefix = v })
    ∷ number 1 (λ m v. record m { version = v })
    ∷ trimmed 3 (λ m v. record m { asset_type = v })
    ∷ trimmed 32 (λ m v. record m { asset_id = v })
    ∷ number 8 (λ m v. record m { party1_token_qty = v })
    ∷ number 8 (λ m v. record m { party2_token_qty = v })
    ∷ number 8 (λ m v. record m { timestamp = v })
    ∷ []

-- What a reader of the bytes of m has: m, with its texts trimmed.
abbrev pub settlement_as_read : Settlement → Settlement
settlement_as_read m = record {
  header = trim m.header;
  protocol_id = m.protocol_id;
  action_prefix = trim m.action_prefix;
  version = m.version;
  asset_type = trim m.asset_type;
  asset_id = trim m.asset_id;
  party1_token_qty = m.party1_token_qty;
  party2_token_qty = m.party2_token_qty;
  timestamp = m.timestamp;
}

unfoldable pub settlement_len : Settlement → ℕ
settlement_len m = length m.header + 66

unfoldable pub settlement_format : Format Settlement
unfolding settlement_writes settlement_reads settlement_len
settlement_format = record {
  writes = settlement_writes;
  reads = settlement_reads;
  count = 68;
  len = settlement_len;
  Sized = λ m. length m.header ≡ 2;
  agree = λ m sized. header_shape _ sized;
  as_read = settlement_as_read;
  reads_back = λ old m. refl;
  len-count = λ m sized. omega (arith, sized);
  total-count = refl;
}

unfoldable pub settlement_codec : Codec Settlement
unfolding settlement_format
settlement_codec = record {
  format = settlement_format;
  new = new_settlement;
  header = λ m. m.header;
  action_prefix = λ m. m.action_prefix;
  head_of = λ m. (_, _, refl);
  count_long = omega arith;
}
