-- ===== src/Protocol/Codec/TextMessage.antt =====
-- `Message` in `pkg/protocol/messages.go`: what its `Bytes`, `Write` and `Len` do.
use smart_contract.Prelude.{ℕ, ◌+◌, ◌≡◌, refl, List, [], ◌∷◌, length, ascii, arith}
use smart_contract.Protocol.Records.{TextMessage}
use smart_contract.Protocol.Responses.{protocol_id}
use smart_contract.Protocol.Codec.{trim, Chunk, text, word, Statement, trimmed, number}
use smart_contract.Protocol.Codec.Laws.{header_shape}
use smart_contract.Protocol.Codec.Interface.{Format, Codec}

-- `NewMessage`
abbrev pub new_text_message : TextMessage
new_text_message = record {
  header = 0x6a ∷ 0x4c ∷ 0xdc ∷ [];
  protocol_id = protocol_id;
  action_prefix = ascii "M1";
  version = 0;
  timestamp = 0;
  message_type = [];
  message = [];
}

-- The values that `Bytes` writes, in its order.
unfoldable pub text_message_writes : TextMessage → List Chunk
text_message_writes m =
    text m.header (length m.header)
    ∷ word 4 m.protocol_id
    ∷ text m.action_prefix 2
    ∷ word 1 m.version
    ∷ word 8 m.timestamp
    ∷ text m.message_type 2
    ∷ text m.message 203
    ∷ []

-- The fields that `Write` reads, in its order.
unfoldable pub text_message_reads : List (Statement TextMessage)
text_message_reads =
    trimmed 3 (λ m v. record m { header = v })
    ∷ number 4 (λ m v. record m { protocol_id = v })
    ∷ trimmed 2 (λ m v. record m { action_prefix = v })
    ∷ number 1 (λ m v. record m { version = v })
    ∷ number 8 (λ m v. record m { timestamp = v })
    ∷ trimmed 2 (λ m v. record m { message_type = v })
    ∷ trimmed 203 (λ m v. record m { message = v })
    ∷ []

-- What a reader of the bytes of m has: m, with its texts trimmed.
abbrev pub text_message_as_read : TextMessage → TextMessage
text_message_as_read m = record {
  header = trim m.header;
  protocol_id = m.protocol_id;
  action_prefix = trim m.action_prefix;
  version = m.version;
  timestamp = m.timestamp;
  message_type = trim m.message_type;
  message = trim m.message;
}

unfoldable pub text_message_len : TextMessage → ℕ
text_message_len m = length m.header + 220

unfoldable pub text_message_format : Format TextMessage
unfolding text_message_writes text_message_reads text_message_len
text_message_format = record {
  writes = text_message_writes;
  reads = text_message_reads;
  count = 223;
  len = text_message_len;
  Sized = λ m. length m.header ≡ 3;
  agree = λ m sized. header_shape _ sized;
  as_read = text_message_as_read;
  reads_back = λ old m. refl;
  len-count = λ m sized. omega (arith, sized);
  total-count = refl;
}

unfoldable pub text_message_codec : Codec TextMessage
unfolding text_message_format
text_message_codec = record {
  format = text_message_format;
  new = new_text_message;
  header = λ m. m.header;
  action_prefix = λ m. m.action_prefix;
  head_of = λ m. (_, _, refl);
  count_long = omega arith;
}
