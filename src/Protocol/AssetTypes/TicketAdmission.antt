-- ===== src/Protocol/AssetTypes/TicketAdmission.antt =====
-- `AssetTypeTicketAdmission` in `pkg/protocol/asset_types.go`: what its `Bytes`, `Write` and `Len` do.
use smart_contract.Prelude.{ℕ, refl, Bytes, List, [], ◌∷◌}
use smart_contract.Protocol.Codec.{trim, Chunk, text, word, Statement, trimmed, checked}
use smart_contract.Protocol.Codec.Interface.{Format}

pub record AssetTypeTicketAdmission : Type 0 where
  pub version : ℕ
  pub trading_restriction : Bytes
  pub age_restriction : Bytes
  pub valid_from : ℕ
  pub expiration_timestamp : ℕ
  pub description : Bytes

-- `NewAssetTypeTicketAdmission`: every field has its zero value.
abbrev pub new_ticket_admission : AssetTypeTicketAdmission
new_ticket_admission = record {
  version = 0;
  trading_restriction = [];
  age_restriction = [];
  valid_from = 0;
  expiration_timestamp = 0;
  description = [];
}

-- The values that `Bytes` writes, in its order.
unfoldable pub ticket_admission_writes : AssetTypeTicketAdmission → List Chunk
ticket_admission_writes m =
    word 1 m.version
    ∷ text m.trading_restriction 3
    ∷ text m.age_restriction 5
    ∷ word 8 m.valid_from
    ∷ word 8 m.expiration_timestamp
    ∷ text m.description 127
    ∷ []

-- The fields that `Write` reads, in its order.
unfoldable pub ticket_admission_reads : List (Statement AssetTypeTicketAdmission)
ticket_admission_reads =
    checked 1 (λ m v. record m { version = v })
    ∷ trimmed 3 (λ m v. record m { trading_restriction = v })
    ∷ trimmed 5 (λ m v. record m { age_restriction = v })
    ∷ checked 8 (λ m v. record m { valid_from = v })
    ∷ checked 8 (λ m v. record m { expiration_timestamp = v })
    ∷ trimmed 127 (λ m v. record m { description = v })
    ∷ []

-- What a reader of the bytes of m has: m, with its texts trimmed.
abbrev pub ticket_admission_as_read : AssetTypeTicketAdmission → AssetTypeTicketAdmission
ticket_admission_as_read m = record {
  version = m.version;
  trading_restriction = trim m.trading_restriction;
  age_restriction = trim m.age_restriction;
  valid_from = m.valid_from;
  expiration_timestamp = m.expiration_timestamp;
  description = trim m.description;
}

unfoldable pub ticket_admission_len : AssetTypeTicketAdmission → ℕ
ticket_admission_len m = 152

unfoldable pub ticket_admission_format : Format AssetTypeTicketAdmission
unfolding ticket_admission_writes ticket_admission_reads ticket_admission_len
ticket_admission_format = record {
  writes = ticket_admission_writes;
  reads = ticket_admission_reads;
  count = 152;
  len = ticket_admission_len;
  Sized = λ m. Unit {0};
  agree = λ m sized. refl;
  as_read = ticket_admission_as_read;
  reads_back = λ old m. refl;
  len-count = λ m sized. refl;
  total-count = refl;
}
