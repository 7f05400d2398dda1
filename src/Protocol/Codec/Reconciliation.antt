-- ===== src/Protocol/Codec/Reconciliation.antt =====
-- `Reconciliation` in `pkg/protocol/messages.go`: what its `Bytes`, `Write` and `Len` do.
use smart_contract.Prelude.{ℕ, ◌+◌, ◌≡◌, refl, List, [], ◌∷◌, length, ascii, arith}
use smart_contract.Protocol.Records.{Reconciliation}
use smart_contract.Protocol.Responses.{protocol_id}
use smart_contract.Protocol.Codec.{trim, Chunk, text, word, Statement, trimmed, number}
use smart_contract.Protocol.Codec.Laws.{header_shape}
use smart_contract.Protocol.Codec.Interface.{Format, Codec}

-- `NewReconciliation`
abbrev pub new_reconciliation : Reconciliation
new_reconciliation = record {
  header = 0x6a ∷ 0x4c ∷ 0x97 ∷ [];
  protocol_id = protocol_id;
  action_prefix = ascii "E5";
  version = 0;
  asset_type = [];
  asset_id = [];
  ref_txn_id = [];
  target_address_qty = 0;
  timestamp = 0;
  message = [];
}

-- The values that `Bytes` writes, in its order.
unfoldable pub reconciliation_writes : Reconciliation → List Chunk
reconciliation_writes m =
    text m.header (length m.header)
    ∷ word 4 m.protocol_id
    ∷ text m.action_prefix 2
    ∷ word 1 m.version
    ∷ text m.asset_type 3
    ∷ text m.asset_id 32
    ∷ text m.ref_txn_id 32
    ∷ word 8 m.target_address_qty
    ∷ word 8 m.timestamp
    ∷ text m.message 61
    ∷ []

-- The fields that `Write` reads, in its order.
unfoldable pub reconciliation_reads : List (Statement Reconciliation)
reconciliation_reads =
    trimmed 3 (λ m v. record m { header = v })
    ∷ number 4 (λ m v. record m { protocol_id = v })
    ∷ trimmed 2 (λ m v. record m { action_prefix = v })
    ∷ number 1 (λ m v. record m { version = v })
    ∷ trimmed 3 (λ m v. record m { asset_type = v })
    ∷ trimmed 32 (λ m v. record m { asset_id = v })
    ∷ trimmed 32 (λ m v. record m { ref_txn_id = v })
    ∷ number 8 (λ m v. record m { target_address_qty = v })
    ∷ number 8 (λ m v. record m { timestamp = v })
    ∷ trimmed 61 (λ m v. record m { message = v })
    ∷ []

-- What a reader of the bytes of m has: m, with its texts trimmed.
abbrev pub reconciliation_as_read : Reconciliation → Reconciliation
reconciliation_as_read m = record {
  header = trim m.header;
  protocol_id = m.protocol_id;
  action_prefix = trim m.action_prefix;
  version = m.version;
  asset_type = trim m.asset_type;
  asset_id = trim m.asset_id;
  ref_txn_id = trim m.ref_txn_id;
  target_address_qty = m.target_address_qty;
  timestamp = m.timestamp;
  message = trim m.message;
}

unfoldable pub reconciliation_len : Reconciliation → ℕ
reconciliation_len m = length m.header + 151

unfoldable pub reconciliation_format : Format Reconciliation
unfolding reconciliation_writes reconciliation_reads reconciliation_len
reconciliation_format = record {
  writes = reconciliation_writes;
  reads = reconciliation_reads;
  count = 154;
  len = reconciliation_len;
  Sized = λ m. length m.header ≡ 3;
  agree = λ m sized. header_shape _ sized;
  as_read = reconciliation_as_read;
  reads_back = λ old m. refl;
  len-count = λ m sized. omega (arith, sized);
  total-count = refl;
}

unfoldable pub reconciliation_codec : Codec Reconciliation
unfolding reconciliation_format
reconciliation_codec = record {
  format = reconciliation_format;
  new = new_reconciliation;
  header = λ m. m.header;
  action_prefix = λ m. m.action_prefix;
  head_of = λ m. (_, _, refl);
  count_long = omega arith;
}
