-- ===== src/Protocol/Codec/BallotCast.antt =====
-- `BallotCast` in `pkg/protocol/messages.go`: what its `Bytes`, `Write` and `Len` do.
use smart_contract.Prelude.{ℕ, ◌+◌, ◌≡◌, refl, List, [], ◌∷◌, length, ascii, arith}
use smart_contract.Protocol.Requests.{BallotCast}
use smart_contract.Protocol.Responses.{protocol_id}
use smart_contract.Protocol.Codec.{trim, Chunk, text, word, Statement, trimmed, number}
use smart_contract.Protocol.Codec.Laws.{header_shape}
use smart_contract.Protocol.Codec.Interface.{Format, Codec}

-- `NewBallotCast`
abbrev pub new_ballot_cast : BallotCast
new_ballot_cast = record {
  header = 0x6a ∷ 0x4c ∷ 0x5a ∷ [];
  protocol_id = protocol_id;
  action_prefix = ascii "G4";
  version = 0;
  asset_type = [];
  asset_id = [];
  vote_txn_id = [];
  vote = [];
}

-- The values that `Bytes` writes, in its order.
unfoldable pub ballot_cast_writes : BallotCast → List Chunk
ballot_cast_writes m =
    text m.header (length m.header)
    ∷ word 4 m.protocol_id
    ∷ text m.action_prefix 2
    ∷ word 1 m.version
    ∷ text m.asset_type 3
    ∷ text m.asset_id 32
    ∷ text m.vote_txn_id 32
    ∷ text m.vote 16
    ∷ []

-- The fields that `Write` reads, in its order.
unfoldable pub ballot_cast_reads : List (Statement BallotCast)
ballot_cast_reads =
    trimmed 3 (λ m v. record m { header = v })
    ∷ number 4 (λ m v. record m { protocol_id = v })
    ∷ trimmed 2 (λ m v. record m { action_prefix = v })
    ∷ number 1 (λ m v. record m { version = v })
    ∷ trimmed 3 (λ m v. record m { asset_type = v })
    ∷ trimmed 32 (λ m v. record m { asset_id = v })
    ∷ trimmed 32 (λ m v. record m { vote_txn_id = v })
    ∷ trimmed 16 (λ m v. record m { vote = v })
    ∷ []

-- What a reader of the bytes of m has: m, with its texts trimmed.
abbrev pub ballot_cast_as_read : BallotCast → BallotCast
ballot_cast_as_read m = record {
  header = trim m.header;
  protocol_id = m.protocol_id;
  action_prefix = trim m.action_prefix;
  version = m.version;
  asset_type = trim m.asset_type;
  asset_id = trim m.asset_id;
  vote_txn_id = trim m.vote_txn_id;
  vote = trim m.vote;
}

unfoldable pub ballot_cast_len : BallotCast → ℕ
ballot_cast_len m = length m.header + 90

unfoldable pub ballot_cast_format : Format BallotCast
unfolding ballot_cast_writes ballot_cast_reads ballot_cast_len
ballot_cast_format = record {
  writes = ballot_cast_writes;
  reads = ballot_cast_reads;
  count = 93;
  len = ballot_cast_len;
  Sized = λ m. length m.header ≡ 3;
  agree = λ m sized. header_shape _ sized;
  as_read = ballot_cast_as_read;
  reads_back = λ old m. refl;
  len-count = λ m sized. omega (arith, sized);
  total-count = refl;
}

unfoldable pub ballot_cast_codec : Codec BallotCast
unfolding ballot_cast_format
ballot_cast_codec = record {
  format = ballot_cast_format;
  new = new_ballot_cast;
  header = λ m. m.header;
  action_prefix = λ m. m.action_prefix;
  head_of = λ m. (_, _, refl);
  count_long = omega arith;
}
