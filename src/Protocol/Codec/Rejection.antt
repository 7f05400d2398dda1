-- ===== src/Protocol/Codec/Rejection.antt =====
-- `Rejection` in `pkg/protocol/messages.go`: what its `Bytes`, `Write` and `Len` do.
use smart_contract.Prelude.{ℕ, ◌+◌, ◌≡◌, refl, List, [], ◌∷◌, length, arith}
use smart_contract.Protocol.Responses.{Rejection, new_rejection}
use smart_contract.Protocol.Codec.{trim, Chunk, text, word, Statement, trimmed, number}
use smart_contract.Protocol.Codec.Laws.{header_shape}
use smart_contract.Protocol.Codec.Interface.{Format, Codec}

-- The values that `Bytes` writes, in its order.
unfoldable pub rejection_writes : Rejection → List Chunk
rejection_writes m =
    text m.header (length m.header)
    ∷ word 4 m.protocol_id
    ∷ text m.action_prefix 2
    ∷ word 1 m.version
    ∷ word 8 m.timestamp
    ∷ text m.asset_type 3
    ∷ text m.asset_id 32
    ∷ word 1 m.rejection_type
    ∷ text m.message 169
    ∷ []

-- The fields that `Write` reads, in its order.
unfoldable pub rejection_reads : List (Statement Rejection)
rejection_reads =
    trimmed 3 (λ m v. record m { header = v })
    ∷ number 4 (λ m v. record m { protocol_id = v })
    ∷ trimmed 2 (λ m v. record m { action_prefix = v })
    ∷ number 1 (λ m v. record m { version = v })
    ∷ number 8 (λ m v. record m { timestamp = v })
    ∷ trimmed 3 (λ m v. record m { asset_type = v })
    ∷ trimmed 32 (λ m v. record m { asset_id = v })
    ∷ number 1 (λ m v. record m { rejection_type = v })
    ∷ trimmed 169 (λ m v. record m { message = v })
    ∷ []

-- What a reader of the bytes of m has: m, with its texts trimmed.
abbrev pub rejection_as_read : Rejection → Rejection
rejection_as_read m = record {
  header = trim m.header;
  protocol_id = m.protocol_id;
  action_prefix = trim m.action_prefix;
  version = m.version;
  timestamp = m.timestamp;
  asset_type = trim m.asset_type;
  asset_id = trim m.asset_id;
  rejection_type = m.rejection_type;
  message = trim m.message;
}

unfoldable pub rejection_len : Rejection → ℕ
rejection_len m = length m.header + 220

unfoldable pub rejection_format : Format Rejection
unfolding rejection_writes rejection_reads rejection_len
rejection_format = record {
  writes = rejection_writes;
  reads = rejection_reads;
  count = 223;
  len = rejection_len;
  Sized = λ m. length m.header ≡ 3;
  agree = λ m sized. header_shape _ sized;
  as_read = rejection_as_read;
  reads_back = λ old m. refl;
  len-count = λ m sized. omega (arith, sized);
  total-count = refl;
}

unfoldable pub rejection_codec : Codec Rejection
unfolding rejection_format
rejection_codec = record {
  format = rejection_format;
  new = new_rejection;
  header = λ m. m.header;
  action_prefix = λ m. m.action_prefix;
  head_of = λ m. (_, _, refl);
  count_long = omega arith;
}
