-- ===== src/Protocol/Codec/Order.antt =====
-- `Order` in `pkg/protocol/messages.go`: what its `Bytes`, `Write` and `Len` do.
use smart_contract.Prelude.{ℕ, ◌+◌, ◌≡◌, refl, List, [], ◌∷◌, length, ascii, arith}
use smart_contract.Protocol.Requests.{Order}
use smart_contract.Protocol.Responses.{protocol_id}
use smart_contract.Protocol.Codec.{trim, Chunk, text, word, Statement, trimmed, number}
use smart_contract.Protocol.Codec.Laws.{header_shape}
use smart_contract.Protocol.Codec.Interface.{Format, Codec}

-- `NewOrder`
abbrev pub new_order : Order
new_order = record {
  header = 0x6a ∷ 0x4c ∷ 0xdc ∷ [];
  protocol_id = protocol_id;
  action_prefix = ascii "E1";
  version = 0;
  asset_type = [];
  asset_id = [];
  compliance_action = 0;
  target_address = [];
  deposit_address = [];
  supporting_evidence_hash = [];
  qty = 0;
  expiration = 0;
  message = [];
}

-- The values that `Bytes` writes, in its order.
unfoldable pub order_writes : Order → List Chunk
order_writes m =
    text m.header (length m.header)
    ∷ word 4 m.protocol_id
    ∷ text m.action_prefix 2
    ∷ word 1 m.version
    ∷ text m.asset_type 3
    ∷ text m.asset_id 32
    ∷ word 1 m.compliance_action
    ∷ text m.target_address 34
    ∷ text m.deposit_address 34
    ∷ text m.supporting_evidence_hash 32
    ∷ word 8 m.qty
    ∷ word 8 m.expiration
    ∷ text m.message 61
    ∷ []

-- The fields that `Write` reads, in its order.
unfoldable pub order_reads : List (Statement Order)
order_reads =
    trimmed 3 (λ m v. record m { header = v })
    ∷ number 4 (λ m v. record m { protocol_id = v })
    ∷ trimmed 2 (λ m v. record m { action_prefix = v })
    ∷ number 1 (λ m v. record m { version = v })
    ∷ trimmed 3 (λ m v. record m { asset_type = v })
    ∷ trimmed 32 (λ m v. record m { asset_id = v })
    ∷ number 1 (λ m v. record m { compliance_action = v })
    ∷ trimmed 34 (λ m v. record m { target_address = v })
    ∷ trimmed 34 (λ m v. record m { deposit_address = v })
    ∷ trimmed 32 (λ m v. record m { supporting_evidence_hash = v })
    ∷ number 8 (λ m v. record m { qty = v })
    ∷ number 8 (λ m v. record m { expiration = v })
    ∷ trimmed 61 (λ m v. record m { message = v })
    ∷ []

-- What a reader of the bytes of m has: m, with its texts trimmed.
abbrev pub order_as_read : Order → Order
order_as_read m = record {
  header = trim m.header;
  protocol_id = m.protocol_id;
  action_prefix = trim m.action_prefix;
  version = m.version;
  asset_type = trim m.asset_type;
  asset_id = trim m.asset_id;
  compliance_action = m.compliance_action;
  target_address = trim m.target_address;
  deposit_address = trim m.deposit_address;
  supporting_evidence_hash = trim m.supporting_evidence_hash;
  qty = m.qty;
  expiration = m.expiration;
  message = trim m.message;
}

unfoldable pub order_len : Order → ℕ
order_len m = length m.header + 220

unfoldable pub order_format : Format Order
unfolding order_writes order_reads order_len
order_format = record {
  writes = order_writes;
  reads = order_reads;
  count = 223;
  len = order_len;
  Sized = λ m. length m.header ≡ 3;
  agree = λ m sized. header_shape _ sized;
  as_read = order_as_read;
  reads_back = λ old m. refl;
  len-count = λ m sized. omega (arith, sized);
  total-count = refl;
}

unfoldable pub order_codec : Codec Order
unfolding order_format
order_codec = record {
  format = order_format;
  new = new_order;
  header = λ m. m.header;
  action_prefix = λ m. m.action_prefix;
  head_of = λ m. (_, _, refl);
  count_long = omega arith;
}
