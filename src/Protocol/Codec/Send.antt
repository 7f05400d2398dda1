-- ===== src/Protocol/Codec/Send.antt =====
-- `Send` in `pkg/protocol/messages.go`: what its `Bytes`, `Write` and `Len` do.
use smart_contract.Prelude.{ℕ, ◌+◌, ◌≡◌, refl, List, [], ◌∷◌, length, ascii, arith}
use smart_contract.Protocol.Requests.{Send}
use smart_contract.Protocol.Responses.{protocol_id}
use smart_contract.Protocol.Codec.{trim, Chunk, text, word, Statement, trimmed, number}
use smart_contract.Protocol.Codec.Laws.{header_shape}
use smart_contract.Protocol.Codec.Interface.{Format, Codec}

-- `NewSend`
abbrev pub new_send : Send
new_send = record {
  header = 0x6a ∷ 0x32 ∷ [];
  protocol_id = protocol_id;
  action_prefix = ascii "T1";
  version = 0;
  asset_type = [];
  asset_id = [];
  token_qty = 0;
}

-- The values that `Bytes` writes, in its order.
unfoldable pub send_writes : Send → List Chunk
send_writes m =
    text m.header (length m.header)
    ∷ word 4 m.protocol_id
    ∷ text m.action_prefix 2
    ∷ word 1 m.version
    ∷ text m.asset_type 3
    ∷ text m.asset_id 32
    ∷ word 8 m.token_qty
    ∷ []

-- The fields that `Write` reads, in its order.
unfoldable pub send_reads : List (Statement Send)
send_reads =
    trimmed 2 (λ m v. record m { header = v })
    ∷ number 4 (λ m v. record m { protocol_id = v })
    ∷ trimmed 2 (λ m v. record m { action_prefix = v })
    ∷ number 1 (λ m v. record m { version = v })
    ∷ trimmed 3 (λ m v. record m { asset_type = v })
    ∷ trimmed 32 (λ m v. record m { asset_id = v })
    ∷ number 8 (λ m v. record m { token_qty = v })
    ∷ []

-- What a reader of the bytes of m has: m, with its texts trimmed.
abbrev pub send_as_read : Send → Send
send_as_read m = record {
  header = trim m.header;
  protocol_id = m.protocol_id;
  action_prefix = trim m.action_prefix;
  version = m.version;
  asset_type = trim m.asset_type;
  asset_id = trim m.asset_id;
  token_qty = m.token_qty;
}

unfoldable pub send_len : Send → ℕ
send_len m = length m.header + 50

unfoldable pub send_format : Format Send
unfolding send_writes send_reads send_len
send_format = record {
  writes = send_writes;
  reads = send_reads;
  count = 52;
  len = send_len;
  Sized = λ m. length m.header ≡ 2;
  agree = λ m sized. header_shape _ sized;
  as_read = send_as_read;
  reads_back = λ old m. refl;
  len-count = λ m sized. omega (arith, sized);
  total-count = refl;
}

unfoldable pub send_codec : Codec Send
unfolding send_format
send_codec = record {
  format = send_format;
  new = new_send;
  header = λ m. m.header;
  action_prefix = λ m. m.action_prefix;
  head_of = λ m. (_, _, refl);
  count_long = omega arith;
}
