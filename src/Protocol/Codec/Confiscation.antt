-- ===== src/Protocol/Codec/Confiscation.antt =====
-- `Confiscation` in `pkg/protocol/messages.go`: what its `Bytes`, `Write` and `Len` do.
use smart_contract.Prelude.{ℕ, ◌+◌, ◌≡◌, refl, List, [], ◌∷◌, length, arith}
use smart_contract.Protocol.Responses.{Confiscation, new_confiscation}
use smart_contract.Protocol.Codec.{trim, Chunk, text, word, Statement, trimmed, number}
use smart_contract.Protocol.Codec.Laws.{header_shape}
use smart_contract.Protocol.Codec.Interface.{Format, Codec}

-- The values that `Bytes` writes, in its order.
unfoldable pub confiscation_writes : Confiscation → List Chunk
confiscation_writes m =
    text m.header (length m.header)
    ∷ word 4 m.protocol_id
    ∷ text m.action_prefix 2
    ∷ word 1 m.version
    ∷ text m.asset_type 3
    ∷ text m.asset_id 32
    ∷ word 8 m.timestamp
    ∷ word 8 m.targets_qty
    ∷ word 8 m.deposits_qty
    ∷ text m.message 61
    ∷ []

-- The fields that `Write` reads, in its order.
unfoldable pub confiscation_reads : List (Statement Confiscation)
confiscation_reads =
    trimmed 3 (λ m v. record m { header = v })
    ∷ number 4 (λ m v. record m { protocol_id = v })
    ∷ trimmed 2 (λ m v. record m { action_prefix = v })
    ∷ number 1 (λ m v. record m { version = v })
    ∷ trimmed 3 (λ m v. record m { asset_type = v })
    ∷ trimmed 32 (λ m v. record m { asset_id = v })
    ∷ number 8 (λ m v. record m { timestamp = v })
    ∷ number 8 (λ m v. record m { targets_qty = v })
    ∷ number 8 (λ m v. record m { deposits_qty = v })
    ∷ trimmed 61 (λ m v. record m { message = v })
    ∷ []

-- What a reader of the bytes of m has: m, with its texts trimmed.
abbrev pub confiscation_as_read : Confiscation → Confiscation
confiscation_as_read m = record {
  header = trim m.header;
  protocol_id = m.protocol_id;
  action_prefix = trim m.action_prefix;
  version = m.version;
  asset_type = trim m.asset_type;
  asset_id = trim m.asset_id;
  timestamp = m.timestamp;
  targets_qty = m.targets_qty;
  deposits_qty = m.deposits_qty;
  message = trim m.message;
}

unfoldable pub confiscation_len : Confiscation → ℕ
confiscation_len m = length m.header + 127

unfoldable pub confiscation_format : Format Confiscation
unfolding confiscation_writes confiscation_reads confiscation_len
confiscation_format = record {
  writes = confiscation_writes;
  reads = confiscation_reads;
  count = 130;
  len = confiscation_len;
  Sized = λ m. length m.header ≡ 3;
  agree = λ m sized. header_shape _ sized;
  as_read = confiscation_as_read;
  reads_back = λ old m. refl;
  len-count = λ m sized. omega (arith, sized);
  total-count = refl;
}

unfoldable pub confiscation_codec : Codec Confiscation
unfolding confiscation_format
confiscation_codec = record {
  format = confiscation_format;
  new = new_confiscation;
  header = λ m. m.header;
  action_prefix = λ m. m.action_prefix;
  head_of = λ m. (_, _, refl);
  count_long = omega arith;
}
