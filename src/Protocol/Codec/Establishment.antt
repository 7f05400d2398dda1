-- ===== src/Protocol/Codec/Establishment.antt =====
-- `Establishment` in `pkg/protocol/messages.go`: what its `Bytes`, `Write` and `Len` do.
use smart_contract.Prelude.{ℕ, ◌+◌, ◌≡◌, refl, List, [], ◌∷◌, length, ascii, arith}
use smart_contract.Protocol.Records.{Establishment}
use smart_contract.Protocol.Responses.{protocol_id}
use smart_contract.Protocol.Codec.{trim, Chunk, text, word, Statement, trimmed, number}
use smart_contract.Protocol.Codec.Laws.{header_shape}
use smart_contract.Protocol.Codec.Interface.{Format, Codec}

-- `NewEstablishment`
abbrev pub new_establishment : Establishment
new_establishment = record {
  header = 0x6a ∷ 0x4c ∷ 0xdc ∷ [];
  protocol_id = protocol_id;
  action_prefix = ascii "R1";
  version = 0;
  registrar = [];
  register_type = 0;
  kyc_jurisdiction = [];
  dob = 0;
  country_of_residence = [];
  supporting_documentation_hash = [];
  message = [];
}

-- The values that `Bytes` writes, in its order.
unfoldable pub establishment_writes : Establishment → List Chunk
establishment_writes m =
    text m.header (length m.header)
    ∷ word 4 m.protocol_id
    ∷ text m.action_prefix 2
    ∷ word 1 m.version
    ∷ text m.registrar 16
    ∷ word 1 m.register_type
    ∷ text m.kyc_jurisdiction 5
    ∷ word 8 m.dob
    ∷ text m.country_of_residence 3
    ∷ text m.supporting_documentation_hash 32
    ∷ text m.message 148
    ∷ []

-- The fields that `Write` reads, in its order.
unfoldable pub establishment_reads : List (Statement Establishment)
establishment_reads =
    trimmed 3 (λ m v. record m { header = v })
    ∷ number 4 (λ m v. record m { protocol_id = v })
    ∷ trimmed 2 (λ m v. record m { action_prefix = v })
    ∷ number 1 (λ m v. record m { version = v })
    ∷ trimmed 16 (λ m v. record m { registrar = v })
    ∷ number 1 (λ m v. record m { register_type = v })
    ∷ trimmed 5 (λ m v. record m { kyc_jurisdiction = v })
    ∷ number 8 (λ m v. record m { dob = v })
    ∷ trimmed 3 (λ m v. record m { country_of_residence = v })
    ∷ trimmed 32 (λ m v. record m { supporting_documentation_hash = v })
    ∷ trimmed 148 (λ m v. record m { message = v })
    ∷ []

-- What a reader of the bytes of m has: m, with its texts trimmed.
abbrev pub establishment_as_read : Establishment → Establishment
establishment_as_read m = record {
  header = trim m.header;
  protocol_id = m.protocol_id;
  action_prefix = trim m.action_prefix;
  version = m.version;
  registrar = trim m.registrar;
  register_type = m.register_type;
  kyc_jurisdiction = trim m.kyc_jurisdiction;
  dob = m.dob;
  country_of_residence = trim m.country_of_residence;
  supporting_documentation_hash = trim m.supporting_documentation_hash;
  message = trim m.message;
}

unfoldable pub establishment_len : Establishment → ℕ
establishment_len m = length m.header + 220

unfoldable pub establishment_format : Format Establishment
unfolding establishment_writes establishment_reads establishment_len
establishment_format = record {
  writes = establishment_writes;
  reads = establishment_reads;
  count = 223;
  len = establishment_len;
  Sized = λ m. length m.header ≡ 3;
  agree = λ m sized. header_shape _ sized;
  as_read = establishment_as_read;
  reads_back = λ old m. refl;
  len-count = λ m sized. omega (arith, sized);
  total-count = refl;
}

unfoldable pub establishment_codec : Codec Establishment
unfolding establishment_format
establishment_codec = record {
  format = establishment_format;
  new = new_establishment;
  header = λ m. m.header;
  action_prefix = λ m. m.action_prefix;
  head_of = λ m. (_, _, refl);
  count_long = omega arith;
}
