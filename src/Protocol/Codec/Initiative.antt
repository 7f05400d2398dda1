-- ===== src/Protocol/Codec/Initiative.antt =====
-- `Initiative` in `pkg/protocol/messages.go`: what its `Bytes`, `Write` and `Len` do.
use smart_contract.Prelude.{ℕ, ◌+◌, ◌≡◌, refl, List, [], ◌∷◌, length, ascii, arith}
use smart_contract.Protocol.Requests.{Initiative}
use smart_contract.Protocol.Responses.{protocol_id}
use smart_contract.Protocol.Codec.{trim, Chunk, text, word, Statement, trimmed, number}
use smart_contract.Protocol.Codec.Laws.{header_shape}
use smart_contract.Protocol.Codec.Interface.{Format, Codec}

-- `NewInitiative`
abbrev pub new_initiative : Initiative
new_initiative = record {
  header = 0x6a ∷ 0x4c ∷ 0xb7 ∷ [];
  protocol_id = protocol_id;
  action_prefix = ascii "G1";
  version = 0;
  asset_type = [];
  asset_id = [];
  vote_type = 0;
  vote_options = [];
  vote_max = 0;
  vote_logic = 0;
  proposal_description = [];
  proposal_document_hash = [];
  vote_cut_off_timestamp = 0;
}

-- The values that `Bytes` writes, in its order.
unfoldable pub initiative_writes : Initiative → List Chunk
initiative_writes m =
    text m.header (length m.header)
    ∷ word 4 m.protocol_id
    ∷ text m.action_prefix 2
    ∷ word 1 m.version
    ∷ text m.asset_type 3
    ∷ text m.asset_id 32
    ∷ word 1 m.vote_type
    ∷ text m.vote_options 16
    ∷ word 1 m.vote_max
    ∷ word 1 m.vote_logic
    ∷ text m.proposal_description 82
    ∷ text m.proposal_document_hash 32
    ∷ word 8 m.vote_cut_off_timestamp
    ∷ []

-- The fields that `Write` reads, in its order.
unfoldable pub initiative_reads : List (Statement Initiative)
initiative_reads =
    trimmed 3 (λ m v. record m { header = v })
    ∷ number 4 (λ m v. record m { protocol_id = v })
    ∷ trimmed 2 (λ m v. record m { action_prefix = v })
    ∷ number 1 (λ m v. record m { version = v })
    ∷ trimmed 3 (λ m v. record m { asset_type = v })
    ∷ trimmed 32 (λ m v. record m { asset_id = v })
    ∷ number 1 (λ m v. record m { vote_type = v })
    ∷ trimmed 16 (λ m v. record m { vote_options = v })
    ∷ number 1 (λ m v. record m { vote_max = v })
    ∷ number 1 (λ m v. record m { vote_logic = v })
    ∷ trimmed 82 (λ m v. record m { proposal_description = v })
    ∷ trimmed 32 (λ m v. record m { proposal_document_hash = v })
    ∷ number 8 (λ m v. record m { vote_cut_off_timestamp = v })
    ∷ []

-- What a reader of the bytes of m has: m, with its texts trimmed.
abbrev pub initiative_as_read : Initiative → Initiative
initiative_as_read m = record {
  header = trim m.header;
  protocol_id = m.protocol_id;
  action_prefix = trim m.action_prefix;
  version = m.version;
  asset_type = trim m.asset_type;
  asset_id = trim m.asset_id;
  vote_type = m.vote_type;
  vote_options = trim m.vote_options;
  vote_max = m.vote_max;
  vote_logic = m.vote_logic;
  proposal_description = trim m.proposal_description;
  proposal_document_hash = trim m.proposal_document_hash;
  vote_cut_off_timestamp = m.vote_cut_off_timestamp;
}

unfoldable pub initiative_len : Initiative → ℕ
initiative_len m = length m.header + 183

unfoldable pub initiative_format : Format Initiative
unfolding initiative_writes initiative_reads initiative_len
initiative_format = record {
  writes = initiative_writes;
  reads = initiative_reads;
  count = 186;
  len = initiative_len;
  Sized = λ m. length m.header ≡ 3;
  agree = λ m sized. header_shape _ sized;
  as_read = initiative_as_read;
  reads_back = λ old m. refl;
  len-count = λ m sized. omega (arith, sized);
  total-count = refl;
}

unfoldable pub initiative_codec : Codec Initiative
unfolding initiative_format
initiative_codec = record {
  format = initiative_format;
  new = new_initiative;
  header = λ m. m.header;
  action_prefix = λ m. m.action_prefix;
  head_of = λ m. (_, _, refl);
  count_long = omega arith;
}
