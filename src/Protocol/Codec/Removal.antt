-- ===== src/Protocol/Codec/Removal.antt =====
-- `Removal` in `pkg/protocol/messages.go`: what its `Bytes`, `Write` and `Len` do.
use smart_contract.Prelude.{ℕ, ◌+◌, ◌≡◌, refl, List, [], ◌∷◌, length, ascii, arith}
use smart_contract.Protocol.Records.{Removal}
use smart_contract.Protocol.Responses.{protocol_id}
use smart_contract.Protocol.Codec.{trim, Chunk, text, word, Statement, trimmed, number}
use smart_contract.Protocol.Codec.Laws.{header_shape}
use smart_contract.Protocol.Codec.Interface.{Format, Codec}

-- `NewRemoval`
abbrev pub new_removal : Removal
new_removal = record {
  header = 0x6a ∷ 0x4c ∷ 0xdc ∷ [];
  protocol_id = protocol_id;
  action_prefix = ascii "R4";
  version = 0;
  supporting_documentation_hash = [];
  message = [];
}

-- The values that `Bytes` writes, in its order.
unfoldable pub removal_writes : Removal → List Chunk
removal_writes m =
    text m.header (length m.header)
    ∷ word 4 m.protocol_id
    ∷ text m.action_prefix 2
    ∷ word 1 m.version
    ∷ text m.supporting_documentation_hash 32
    ∷ text m.message 181
    ∷ []

-- The fields that `Write` reads, in its order.
unfoldable pub removal_reads : List (Statement Removal)
removal_reads =
    trimmed 3 (λ m v. record m { header = v })
    ∷ number 4 (λ m v. record m { protocol_id = v })
    ∷ trimmed 2 (λ m v. record m { action_prefix = v })
    ∷ number 1 (λ m v. record m { version = v })
    ∷ trimmed 32 (λ m v. record m { supporting_documentation_hash = v })
    ∷ trimmed 181 (λ m v. record m { message = v })
    ∷ []

-- What a reader of the bytes of m has: m, with its texts trimmed.
abbrev pub removal_as_read : Removal → Removal
removal_as_read m = record {
  header = trim m.header;
  protocol_id = m.protocol_id;
  action_prefix = trim m.action_prefix;
  version = m.version;
  supporting_documentation_hash = trim m.supporting_documentation_hash;
  message = trim m.message;
}

unfoldable pub removal_len : Removal → ℕ
removal_len m = length m.header + 220

unfoldable pub removal_format : Format Removal
unfolding removal_writes removal_reads removal_len
removal_format = record {
  writes = removal_writes;
  reads = removal_reads;
  count = 223;
  len = removal_len;
  Sized = λ m. length m.header ≡ 3;
  agree = λ m sized. header_shape _ sized;
  as_read = removal_as_read;
  reads_back = λ old m. refl;
  len-count = λ m sized. omega (arith, sized);
  total-count = refl;
}

unfoldable pub removal_codec : Codec Removal
unfolding removal_format
removal_codec = record {
  format = removal_format;
  new = new_removal;
  header = λ m. m.header;
  action_prefix = λ m. m.action_prefix;
  head_of = λ m. (_, _, refl);
  count_long = omega arith;
}
