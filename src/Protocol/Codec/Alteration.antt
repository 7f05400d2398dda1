-- ===== src/Protocol/Codec/Alteration.antt =====
-- `Alteration` in `pkg/protocol/messages.go`: what its `Bytes`, `Write` and `Len` do.
use smart_contract.Prelude.{ℕ, ◌+◌, ◌≡◌, refl, List, [], ◌∷◌, length, ascii, arith}
use smart_contract.Protocol.Records.{Alteration}
use smart_contract.Protocol.Responses.{protocol_id}
use smart_contract.Protocol.Codec.{trim, Chunk, text, word, Statement, trimmed, number}
use smart_contract.Protocol.Codec.Laws.{header_shape}
use smart_contract.Protocol.Codec.Interface.{Format, Codec}

-- `NewAlteration`
abbrev pub new_alteration : Alteration
new_alteration = record {
  header = 0x6a ∷ 0x4c ∷ 0xdc ∷ [];
  protocol_id = protocol_id;
  action_prefix = ascii "R3";
  version = 0;
  sublist = [];
  kyc = 0;
  kyc_jurisdiction = [];
  dob = 0;
  country_of_residence = [];
  supporting_documentation_hash = [];
  message = [];
}

-- The values that `Bytes` writes, in its order.
unfoldable pub alteration_writes : Alteration → List Chunk
alteration_writes m =
    text m.header (length m.header)
    ∷ word 4 m.protocol_id
    ∷ text m.action_prefix 2
    ∷ word 1 m.version
    ∷ text m.sublist 4
    ∷ word 1 m.kyc
    ∷ text m.kyc_jurisdiction 5
    ∷ word 8 m.dob
    ∷ text m.country_of_residence 3
    ∷ text m.supporting_documentation_hash 32
    ∷ text m.message 160
    ∷ []

-- The fields that `Write` reads, in its order.
unfoldable pub alteration_reads : List (Statement Alteration)
alteration_reads =
    trimmed 3 (λ m v. record m { header = v })
    ∷ number 4 (λ m v. record m { protocol_id = v })
    ∷ trimmed 2 (λ m v. record m { action_prefix = v })
    ∷ number 1 (λ m v. record m { version = v })
    ∷ trimmed 4 (λ m v. record m { sublist = v })
    ∷ number 1 (λ m v. record m { kyc = v })
    ∷ trimmed 5 (λ m v. record m { kyc_jurisdiction = v })
    ∷ number 8 (λ m v. record m { dob = v })
    ∷ trimmed 3 (λ m v. record m { country_of_residence = v })
    ∷ trimmed 32 (λ m v. record m { supporting_documentation_hash = v })
    ∷ trimmed 160 (λ m v. record m { message = v })
    ∷ []

-- What a reader of the bytes of m has: m, with its texts trimmed.
abbrev pub alteration_as_read : Alteration → Alteration
alteration_as_read m = record {
  header = trim m.header;
  protocol_id = m.protocol_id;
  action_prefix = trim m.action_prefix;
  version = m.version;
  sublist = trim m.sublist;
  kyc = m.kyc;
  kyc_jurisdiction = trim m.kyc_jurisdiction;
  dob = m.dob;
  country_of_residence = trim m.country_of_residence;
  supporting_documentation_hash = trim m.supporting_documentation_hash;
  message = trim m.message;
}

unfoldable pub alteration_len : Alteration → ℕ
alteration_len m = length m.header + 220

unfoldable pub alteration_format : Format Alteration
unfolding alteration_writes alteration_reads alteration_len
alteration_format = record {
  writes = alteration_writes;
  reads = alteration_reads;
  count = 223;
  len = alteration_len;
  Sized = λ m. length m.header ≡ 3;
  agree = λ m sized. header_shape _ sized;
  as_read = alteration_as_read;
  reads_back = λ old m. refl;
  len-count = λ m sized. omega (arith, sized);
  total-count = refl;
}

unfoldable pub alteration_codec : Codec Alteration
unfolding alteration_format
alteration_codec = record {
  format = alteration_format;
  new = new_alteration;
  header = λ m. m.header;
  action_prefix = λ m. m.action_prefix;
  head_of = λ m. (_, _, refl);
  count_long = omega arith;
}
