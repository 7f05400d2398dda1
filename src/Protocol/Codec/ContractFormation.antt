-- ===== src/Protocol/Codec/ContractFormation.antt =====
-- `ContractFormation` in `pkg/protocol/messages.go`: what its `Bytes`, `Write` and `Len` do.
use smart_contract.Prelude.{ℕ, ◌+◌, ◌≡◌, refl, List, [], ◌∷◌, length, arith}
use smart_contract.Protocol.Responses.{ContractFormation, new_contract_formation}
use smart_contract.Protocol.Codec.{trim, Chunk, text, word, Statement, trimmed, number}
use smart_contract.Protocol.Codec.Laws.{header_shape}
use smart_contract.Protocol.Codec.Interface.{Format, Codec}

-- The values that `Bytes` writes, in its order.
unfoldable pub contract_formation_writes : ContractFormation → List Chunk
contract_formation_writes m =
    text m.header (length m.header)
    ∷ word 4 m.protocol_id
    ∷ text m.action_prefix 2
    ∷ word 1 m.version
    ∷ text m.contract_name 32
    ∷ text m.contract_file_hash 32
    ∷ text m.governing_law 5
    ∷ text m.jurisdiction 5
    ∷ word 8 m.contract_expiration
    ∷ text m.uri 78
    ∷ word 2 m.contract_revision
    ∷ text m.issuer_id 16
    ∷ word 1 m.issuer_type
    ∷ text m.contract_operator_id 16
    ∷ text m.authorization_flags 2
    ∷ word 1 m.voting_system
    ∷ word 4 m.initiative_threshold
    ∷ text m.initiative_threshold_currency 3
    ∷ word 8 m.restricted_qty
    ∷ []

-- The fields that `Write` reads, in its order.
unfoldable pub contract_formation_reads : List (Statement ContractFormation)
contract_formation_reads =
    trimmed 3 (λ m v. record m { header = v })
    ∷ number 4 (λ m v. record m { protocol_id = v })
    ∷ trimmed 2 (λ m v. record m { action_prefix = v })
    ∷ number 1 (λ m v. record m { version = v })
    ∷ trimmed 32 (λ m v. record m { contract_name = v })
    ∷ trimmed 32 (λ m v. record m { contract_file_hash = v })
    ∷ trimmed 5 (λ m v. record m { governing_law = v })
    ∷ trimmed 5 (λ m v. record m { jurisdiction = v })
    ∷ number 8 (λ m v. record m { contract_expiration = v })
    ∷ trimmed 78 (λ m v. record m { uri = v })
    ∷ number 2 (λ m v. record m { contract_revision = v })
    ∷ trimmed 16 (λ m v. record m { issuer_id = v })
    ∷ number 1 (λ m v. record m { issuer_type = v })
    ∷ trimmed 16 (λ m v. record m { contract_operator_id = v })
    ∷ trimmed 2 (λ m v. record m { authorization_flags = v })
    ∷ number 1 (λ m v. record m { voting_system = v })
    ∷ number 4 (λ m v. record m { initiative_threshold = v })
    ∷ trimmed 3 (λ m v. record m { initiative_threshold_currency = v })
    ∷ number 8 (λ m v. record m { restricted_qty = v })
    ∷ []

-- What a reader of the bytes of m has: m, with its texts trimmed.
abbrev pub contract_formation_as_read : ContractFormation → ContractFormation
contract_formation_as_read m = record {
  header = trim m.header;
  protocol_id = m.protocol_id;
  action_prefix = trim m.action_prefix;
  version = m.version;
  contract_name = trim m.contract_name;
  contract_file_hash = trim m.contract_file_hash;
  governing_law = trim m.governing_law;
  jurisdiction = trim m.jurisdiction;
  contract_expiration = m.contract_expiration;
  uri = trim m.uri;
  contract_revision = m.contract_revision;
  issuer_id = trim m.issuer_id;
  issuer_type = m.issuer_type;
  contract_operator_id = trim m.contract_operator_id;
  authorization_flags = trim m.authorization_flags;
  voting_system = m.voting_system;
  initiative_threshold = m.initiative_threshold;
  initiative_threshold_currency = trim m.initiative_threshold_currency;
  restricted_qty = m.restricted_qty;
}

unfoldable pub contract_formation_len : ContractFormation → ℕ
contract_formation_len m = length m.header + 220

unfoldable pub contract_formation_format : Format ContractFormation
unfolding contract_formation_writes contract_formation_reads contract_formation_len
contract_formation_format = record {
  writes = contract_formation_writes;
  reads = contract_formation_reads;
  count = 223;
  len = contract_formation_len;
  Sized = λ m. length m.header ≡ 3;
  agree = λ m sized. header_shape _ sized;
  as_read = contract_formation_as_read;
  reads_back = λ old m. refl;
  len-count = λ m sized. omega (arith, sized);
  total-count = refl;
}

unfoldable pub contract_formation_codec : Codec ContractFormation
unfolding contract_formation_format
contract_formation_codec = record {
  format = contract_formation_format;
  new = new_contract_formation;
  header = λ m. m.header;
  action_prefix = λ m. m.action_prefix;
  head_of = λ m. (_, _, refl);
  count_long = omega arith;
}
