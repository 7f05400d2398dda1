-- ===== src/Protocol/Codec/Thaw.antt =====
-- `Thaw` in `pkg/protocol/messages.go`: what its `Bytes`, `Write` and `Len` do.
use smart_contract.Prelude.{ℕ, ◌+◌, ◌≡◌, refl, List, [], ◌∷◌, length, arith}
use smart_contract.Protocol.Responses.{Thaw, new_thaw}
use smart_contract.Protocol.Codec.{trim, Chunk, text, word, Statement, trimmed, number}
use smart_contract.Protocol.Codec.Laws.{header_shape}
use smart_contract.Protocol.Codec.Interface.{Format, Codec}

-- The values that `Bytes` writes, in its order.
unfoldable pub thaw_writes : Thaw → List Chunk
thaw_writes m =
    text m.header (length m.header)
    ∷ word 4 m.protocol_id
    ∷ text m.action_prefix 2
    ∷ word 1 m.version
    ∷ text m.asset_type 3
    ∷ text m.asset_id 32
    ∷ word 8 m.timestamp
    ∷ word 8 m.qty
    ∷ text m.message 61
    ∷ []

-- The fields that `Write` reads, in its order.
unfoldable pub thaw_reads : List (Statement Thaw)
thaw_reads =
    trimmed 3 (λ m v. record m { header = v })
    ∷ number 4 (λ m v. record m { protocol_id = v })
    ∷ trimmed 2 (λ m v. record m { action_prefix = v })
    ∷ number 1 (λ m v. record m { version = v })
    ∷ trimmed 3 (λ m v. record m { asset_type = v })
    ∷ trimmed 32 (λ m v. record m { asset_id = v })
    ∷ number 8 (λ m v. record m { timestamp = v })
    ∷ number 8 (λ m v. record m { qty = v })
    ∷ trimmed 61 (λ m v. record m { message = v })
    ∷ []

-- What a reader of the bytes of m has: m, with its texts trimmed.
abbrev pub thaw_as_read : Thaw → Thaw
thaw_as_read m = record {
  header = trim m.header;
  protocol_id = m.protocol_id;
  action_prefix = trim m.action_prefix;
  version = m.version;
  asset_type = trim m.asset_type;
  asset_id = trim m.asset_id;
  timestamp = m.timestamp;
  qty = m.qty;
  message = trim m.message;
}

unfoldable pub thaw_len : Thaw → ℕ
thaw_len m = length m.header + 119

unfoldable pub thaw_format : Format Thaw
unfolding thaw_writes thaw_reads thaw_len
thaw_format = record {
  writes = thaw_writes;
  reads = thaw_reads;
  count = 122;
  len = thaw_len;
  Sized = λ m. length m.header ≡ 3;
  agree = λ m sized. header_shape _ sized;
  as_read = thaw_as_read;
  reads_back = λ old m. refl;
  len-count = λ m sized. omega (arith, sized);
  total-count = refl;
}

unfoldable pub thaw_codec : Codec Thaw
unfolding thaw_format
thaw_codec = record {
  format = thaw_format;
  new = new_thaw;
  header = λ m. m.header;
  action_prefix = λ m. m.action_prefix;
  head_of = λ m. (_, _, refl);
  count_long = omega arith;
}
