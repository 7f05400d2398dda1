-- ===== src/Protocol/Codec/AssetCreation.antt =====
-- `AssetCreation` in `pkg/protocol/messages.go`: what its `Bytes`, `Write` and `Len` do.
use smart_contract.Prelude.{ℕ, ◌+◌, ◌≡◌, refl, List, [], ◌∷◌, length, arith}
use smart_contract.Protocol.Responses.{AssetCreation, new_asset_creation}
use smart_contract.Protocol.Codec.{
  trim, pad, Chunk, text, word, Statement, trimmed, untrimmed, number,
}
use smart_contract.Protocol.Codec.Laws.{header_shape}
use smart_contract.Protocol.Codec.Interface.{Format, Codec}

-- The values that `Bytes` writes, in its order.
unfoldable pub asset_creation_writes : AssetCreation → List Chunk
asset_creation_writes m =
    text m.header (length m.header)
    ∷ word 4 m.protocol_id
    ∷ text m.action_prefix 2
    ∷ word 1 m.version
    ∷ text m.asset_type 3
    ∷ text m.asset_id 32
    ∷ word 2 m.asset_revision
    ∷ text m.authorization_flags 2
    ∷ word 1 m.voting_system
    ∷ word 1 m.vote_multiplier
    ∷ word 8 m.qty
    ∷ text m.contract_fee_currency 3
    ∷ word 4 m.contract_fee_var
    ∷ word 4 m.contract_fee_fixed
    ∷ text m.payload 152
    ∷ []

-- The fields that `Write` reads, in its order.
unfoldable pub asset_creation_reads : List (Statement AssetCreation)
asset_creation_reads =
    trimmed 3 (λ m v. record m { header = v })
    ∷ number 4 (λ m v. record m { protocol_id = v })
    ∷ trimmed 2 (λ m v. record m { action_prefix = v })
    ∷ number 1 (λ m v. record m { version = v })
    ∷ trimmed 3 (λ m v. record m { asset_type = v })
    ∷ trimmed 32 (λ m v. record m { asset_id = v })
    ∷ number 2 (λ m v. record m { asset_revision = v })
    ∷ trimmed 2 (λ m v. record m { authorization_flags = v })
    ∷ number 1 (λ m v. record m { voting_system = v })
    ∷ number 1 (λ m v. record m { vote_multiplier = v })
    ∷ number 8 (λ m v. record m { qty = v })
    ∷ trimmed 3 (λ m v. record m { contract_fee_currency = v })
    ∷ number 4 (λ m v. record m { contract_fee_var = v })
    ∷ number 4 (λ m v. record m { contract_fee_fixed = v })
    ∷ untrimmed 152 (λ m v. record m { payload = v })
    ∷ []

-- What a reader of the bytes of m has: m, with its texts trimmed and its payload padded.
abbrev pub asset_creation_as_read : AssetCreation → AssetCreation
asset_creation_as_read m = record {
  header = trim m.header;
  protocol_id = m.protocol_id;
  action_prefix = trim m.action_prefix;
  version = m.version;
  asset_type = trim m.asset_type;
  asset_id = trim m.asset_id;
  asset_revision = m.asset_revision;
  authorization_flags = trim m.authorization_flags;
  voting_system = m.voting_system;
  vote_multiplier = m.vote_multiplier;
  qty = m.qty;
  contract_fee_currency = trim m.contract_fee_currency;
  contract_fee_var = m.contract_fee_var;
  contract_fee_fixed = m.contract_fee_fixed;
  payload = pad m.payload 152;
}

unfoldable pub asset_creation_len : AssetCreation → ℕ
asset_creation_len m = length m.header + 219

unfoldable pub asset_creation_format : Format AssetCreation
unfolding asset_creation_writes asset_creation_reads asset_creation_len
asset_creation_format = record {
  writes = asset_creation_writes;
  reads = asset_creation_reads;
  count = 222;
  len = asset_creation_len;
  Sized = λ m. length m.header ≡ 3;
  agree = λ m sized. header_shape _ sized;
  as_read = asset_creation_as_read;
  reads_back = λ old m. refl;
  len-count = λ m sized. omega (arith, sized);
  total-count = refl;
}

unfoldable pub asset_creation_codec : Codec AssetCreation
unfolding asset_creation_format
asset_creation_codec = record {
  format = asset_creation_format;
  new = new_asset_creation;
  header = λ m. m.header;
  action_prefix = λ m. m.action_prefix;
  head_of = λ m. (_, _, refl);
  count_long = omega arith;
}
