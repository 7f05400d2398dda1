-- ===== src/Protocol/Codec/Result.antt =====
-- `Result` in `pkg/protocol/messages.go`: what its `Bytes`, `Write` and `Len` do.
use smart_contract.Prelude.{ℕ, ◌+◌, ◌≡◌, refl, List, [], ◌∷◌, length, ascii, arith}
use smart_contract.Protocol.Records.{Result}
use smart_contract.Protocol.Responses.{protocol_id}
use smart_contract.Protocol.Codec.{trim, Chunk, text, word, Statement, trimmed, number}
use smart_contract.Protocol.Codec.Laws.{header_shape}
use smart_contract.Protocol.Codec.Interface.{Format, Codec}

-- `NewResult`
abbrev pub new_result : Result
new_result = record {
  header = 0x6a ∷ 0x4c ∷ 0xdb ∷ [];
  protocol_id = protocol_id;
  action_prefix = ascii "G6";
  version = 0;
  asset_type = [];
  asset_id = [];
  vote_type = 0;
  vote_txn_id = [];
  timestamp = 0;
  option1_tally = 0;
  option2_tally = 0;
  option3_tally = 0;
  option4_tally = 0;
  option5_tally = 0;
  option6_tally = 0;
  option7_tally = 0;
  option8_tally = 0;
  option9_tally = 0;
  option10_tally = 0;
  option11_tally = 0;
  option12_tally = 0;
  option13_tally = 0;
  option14_tally = 0;
  option15_tally = 0;
  result = [];
}

-- The values that `Bytes` writes, in its order.
unfoldable pub result_writes : Result → List Chunk
result_writes m =
    text m.header (length m.header)
    ∷ word 4 m.protocol_id
    ∷ text m.action_prefix 2
    ∷ word 1 m.version
    ∷ text m.asset_type 3
    ∷ text m.asset_id 32
    ∷ word 1 m.vote_type
    ∷ text m.vote_txn_id 32
    ∷ word 8 m.timestamp
    ∷ word 8 m.option1_tally
    ∷ word 8 m.option2_tally
    ∷ word 8 m.option3_tally
    ∷ word 8 m.option4_tally
    ∷ word 8 m.option5_tally
    ∷ word 8 m.option6_tally
    ∷ word 8 m.option7_tally
    ∷ word 8 m.option8_tally
    ∷ word 8 m.option9_tally
    ∷ word 8 m.option10_tally
    ∷ word 8 m.option11_tally
    ∷ word 8 m.option12_tally
    ∷ word 8 m.option13_tally
    ∷ word 8 m.option14_tally
    ∷ word 8 m.option15_tally
    ∷ text m.result 16
    ∷ []

-- The fields that `Write` reads, in its order.
unfoldable pub result_reads : List (Statement Result)
result_reads =
    trimmed 3 (λ m v. record m { header = v })
    ∷ number 4 (λ m v. record m { protocol_id = v })
    ∷ trimmed 2 (λ m v. record m { action_prefix = v })
    ∷ number 1 (λ m v. record m { version = v })
    ∷ trimmed 3 (λ m v. record m { asset_type = v })
    ∷ trimmed 32 (λ m v. record m { asset_id = v })
    ∷ number 1 (λ m v. record m { vote_type = v })
    ∷ trimmed 32 (λ m v. record m { vote_txn_id = v })
    ∷ number 8 (λ m v. record m { timestamp = v })
    ∷ number 8 (λ m v. record m { option1_tally = v })
    ∷ number 8 (λ m v. record m { option2_tally = v })
    ∷ number 8 (λ m v. record m { option3_tally = v })
    ∷ number 8 (λ m v. record m { option4_tally = v })
    ∷ number 8 (λ m v. record m { option5_tally = v })
    ∷ number 8 (λ m v. record m { option6_tally = v })
    ∷ number 8 (λ m v. record m { option7_tally = v })
    ∷ number 8 (λ m v. record m { option8_tally = v })
    ∷ number 8 (λ m v. record m { option9_tally = v })
    ∷ number 8 (λ m v. record m { option10_tally = v })
    ∷ number 8 (λ m v. record m { option11_tally = v })
    ∷ number 8 (λ m v. record m { option12_tally = v })
    ∷ number 8 (λ m v. record m { option13_tally = v })
    ∷ number 8 (λ m v. record m { option14_tally = v })
    ∷ number 8 (λ m v. record m { option15_tally = v })
    ∷ trimmed 16 (λ m v. record m { result = v })
    ∷ []

-- What a reader of the bytes of m has: m, with its texts trimmed.
abbrev pub result_as_read : Result → Result
result_as_read m = record {
  header = trim m.header;
  protocol_id = m.protocol_id;
  action_prefix = trim m.action_prefix;
  version = m.version;
  asset_type = trim m.asset_type;
  asset_id = trim m.asset_id;
  vote_type = m.vote_type;
  vote_txn_id = trim m.vote_txn_id;
  timestamp = m.timestamp;
  option1_tally = m.option1_tally;
  option2_tally = m.option2_tally;
  option3_tally = m.option3_tally;
  option4_tally = m.option4_tally;
  option5_tally = m.option5_tally;
  option6_tally = m.option6_tally;
  option7_tally = m.option7_tally;
  option8_tally = m.option8_tally;
  option9_tally = m.option9_tally;
  option10_tally = m.option10_tally;
  option11_tally = m.option11_tally;
  option12_tally = m.option12_tally;
  option13_tally = m.option13_tally;
  option14_tally = m.option14_tally;
  option15_tally = m.option15_tally;
  result = trim m.result;
}

unfoldable pub result_len : Result → ℕ
result_len m = length m.header + 219

unfoldable pub result_format : Format Result
unfolding result_writes result_reads result_len
result_format = record {
  writes = result_writes;
  reads = result_reads;
  count = 222;
  len = result_len;
  Sized = λ m. length m.header ≡ 3;
  agree = λ m sized. header_shape _ sized;
  as_read = result_as_read;
  reads_back = λ old m. refl;
  len-count = λ m sized. omega (arith, sized);
  total-count = refl;
}

unfoldable pub result_codec : Codec Result
unfolding result_format
result_codec = record {
  format = result_format;
  new = new_result;
  header = λ m. m.header;
  action_prefix = λ m. m.action_prefix;
  head_of = λ m. (_, _, refl);
  count_long = omega arith;
}
