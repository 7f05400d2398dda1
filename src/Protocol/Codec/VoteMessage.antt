-- ===== src/Protocol/Codec/VoteMessage.antt =====
-- `Vote` in `pkg/protocol/messages.go`: what its `Bytes`, `Write` and `Len` do.
use smart_contract.Prelude.{ℕ, ◌+◌, ◌≡◌, refl, List, [], ◌∷◌, length, arith}
use smart_contract.Protocol.Responses.{VoteMessage, new_vote_message}
use smart_contract.Protocol.Codec.{trim, Chunk, text, word, Statement, trimmed, number}
use smart_contract.Protocol.Codec.Laws.{header_shape}
use smart_contract.Protocol.Codec.Interface.{Format, Codec}

-- The values that `Bytes` writes, in its order.
unfoldable pub vote_message_writes : VoteMessage → List Chunk
vote_message_writes m =
    text m.header (length m.header)
    ∷ word 4 m.protocol_id
    ∷ text m.action_prefix 2
    ∷ word 1 m.version
    ∷ text m.asset_type 3
    ∷ text m.asset_id 32
    ∷ word 1 m.vote_type
    ∷ text m.vote_options 16
    ∷ word 1 m.vote_max
    ∷ word 1 m.vote_logic
    ∷ text m.proposal_description 82
    ∷ text m.proposal_document_hash 32
    ∷ word 8 m.vote_cut_off_timestamp
    ∷ word 8 m.timestamp
    ∷ []

-- The fields that `Write` reads, in its order.
unfoldable pub vote_message_reads : List (Statement VoteMessage)
vote_message_reads =
    trimmed 3 (λ m v. record m { header = v })
    ∷ number 4 (λ m v. record m { protocol_id = v })
    ∷ trimmed 2 (λ m v. record m { action_prefix = v })
    ∷ number 1 (λ m v. record m { version = v })
    ∷ trimmed 3 (λ m v. record m { asset_type = v })
    ∷ trimmed 32 (λ m v. record m { asset_id = v })
    ∷ number 1 (λ m v. record m { vote_type = v })
    ∷ trimmed 16 (λ m v. record m { vote_options = v })
    ∷ number 1 (λ m v. record m { vote_max = v })
    ∷ number 1 (λ m v. record m { vote_logic = v })
    ∷ trimmed 82 (λ m v. record m { proposal_description = v })
    ∷ trimmed 32 (λ m v. record m { proposal_document_hash = v })
    ∷ number 8 (λ m v. record m { vote_cut_off_timestamp = v })
    ∷ number 8 (λ m v. record m { timestamp = v })
    ∷ []

-- What a reader of the bytes of m has: m, with its texts trimmed.
abbrev pub vote_message_as_read : VoteMessage → VoteMessage
vote_message_as_read m = record {
  header = trim m.header;
  protocol_id = m.protocol_id;
  action_prefix = trim m.action_prefix;
  version = m.version;
  asset_type = trim m.asset_type;
  asset_id = trim m.asset_id;
  vote_type = m.vote_type;
  vote_options = trim m.vote_options;
  vote_max = m.vote_max;
  vote_logic = m.vote_logic;
  proposal_description = trim m.proposal_description;
  proposal_document_hash = trim m.proposal_document_hash;
  vote_cut_off_timestamp = m.vote_cut_off_timestamp;
  timestamp = m.timestamp;
}

unfoldable pub vote_message_len : VoteMessage → ℕ
vote_message_len m = length m.header + 191

unfoldable pub vote_message_format : Format VoteMessage
unfolding vote_message_writes vote_message_reads vote_message_len
vote_message_format = record {
  writes = vote_message_writes;
  reads = vote_message_reads;
  count = 194;
  len = vote_message_len;
  Sized = λ m. length m.header ≡ 3;
  agree = λ m sized. header_shape _ sized;
  as_read = vote_message_as_read;
  reads_back = λ old m. refl;
  len-count = λ m sized. omega (arith, sized);
  total-count = refl;
}

unfoldable pub vote_message_codec : Codec VoteMessage
unfolding vote_message_format
vote_message_codec = record {
  format = vote_message_format;
  new = new_vote_message;
  header = λ m. m.header;
  action_prefix = λ m. m.action_prefix;
  head_of = λ m. (_, _, refl);
  count_long = omega arith;
}
