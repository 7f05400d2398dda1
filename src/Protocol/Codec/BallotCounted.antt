-- ===== src/Protocol/Codec/BallotCounted.antt =====
-- `BallotCounted` in `pkg/protocol/messages.go`: what its `Bytes`, `Write` and `Len` do.
use smart_contract.Prelude.{ℕ, ◌+◌, ◌≡◌, refl, List, [], ◌∷◌, length, ascii, arith}
use smart_contract.Protocol.Records.{BallotCounted}
use smart_contract.Protocol.Responses.{protocol_id}
use smart_contract.Protocol.Codec.{trim, Chunk, text, word, Statement, trimmed, number}
use smart_contract.Protocol.Codec.Laws.{header_shape}
use smart_contract.Protocol.Codec.Interface.{Format, Codec}

-- `NewBallotCounted`
abbrev pub new_ballot_counted : BallotCounted
new_ballot_counted = record {
  header = 0x6a ∷ 0x4c ∷ 0x62 ∷ [];
  protocol_id = protocol_id;
  action_prefix = ascii "G5";
  version = 0;
  asset_type = [];
  asset_id = [];
  vote_txn_id = [];
  vote = [];
  timestamp = 0;
}

-- The values that `Bytes` writes, in its order.
unfoldable pub ballot_counted_writes : BallotCounted → List Chunk
ballot_counted_writes m =
    text m.header (length m.header)
    ∷ word 4 m.protocol_id
    ∷ text m.action_prefix 2
    ∷ word 1 m.version
    ∷ text m.asset_type 3
    ∷ text m.asset_id 32
    ∷ text m.vote_txn_id 32
    ∷ text m.vote 16
    ∷ word 8 m.timestamp
    ∷ []

-- The fields that `Write` reads, in its order.
unfoldable pub ballot_counted_reads : List (Statement BallotCounted)
ballot_counted_reads =
    trimmed 3 (λ m v. record m { header = v })
    ∷ number 4 (λ m v. record m { protocol_id = v })
    ∷ trimmed 2 (λ m v. record m { action_prefix = v })
    ∷ number 1 (λ m v. record m { version = v })
    ∷ trimmed 3 (λ m v. record m { asset_type = v })
    ∷ trimmed 32 (λ m v. record m { asset_id = v })
    ∷ trimmed 32 (λ m v. record m { vote_txn_id = v })
    ∷ trimmed 16 (λ m v. record m { vote = v })
    ∷ number 8 (λ m v. record m { timestamp = v })
    ∷ []

-- What a reader of the bytes of m has: m, with its texts trimmed.
abbrev pub ballot_counted_as_read : BallotCounted → BallotCounted
ballot_counted_as_read m = record {
  header = trim m.header;
  protocol_id = m.protocol_id;
  action_prefix = trim m.action_prefix;
  version = m.version;
  asset_type = trim m.asset_type;
  asset_id = trim m.asset_id;
  vote_txn_id = trim m.vote_txn_id;
  vote = trim m.vote;
  timestamp = m.timestamp;
}

unfoldable pub ballot_counted_len : BallotCounted → ℕ
ballot_counted_len m = length m.header + 98

unfoldable pub ballot_counted_format : Format BallotCounted
unfolding ballot_counted_writes ballot_counted_reads ballot_counted_len
ballot_counted_format = record {
  writes = ballot_counted_writes;
  reads = ballot_counted_reads;
  count = 101;
  len = ballot_counted_len;
  Sized = λ m. length m.header ≡ 3;
  agree = λ m sized. header_shape _ sized;
  as_read = ballot_counted_as_read;
  reads_back = λ old m. refl;
  len-count = λ m sized. omega (arith, sized);
  total-count = refl;
}

unfoldable pub ballot_counted_codec : Codec BallotCounted
unfolding ballot_counted_format
ballot_counted_codec = record {
  format = ballot_counted_format;
  new = new_ballot_counted;
  header = λ m. m.header;
  action_prefix = λ m. m.action_prefix;
  head_of = λ m. (_, _, refl);
  count_long = omega arith;
}
