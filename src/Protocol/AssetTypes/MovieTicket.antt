-- ===== src/Protocol/AssetTypes/MovieTicket.antt =====
-- `AssetTypeMovieTicket` in `pkg/protocol/asset_types.go`: what its `Bytes`, `Write` and `Len` do.
use smart_contract.Prelude.{ℕ, refl, Bytes, List, [], ◌∷◌}
use smart_contract.Protocol.Codec.{trim, Chunk, text, word, Statement, trimmed, checked}
use smart_contract.Protocol.Codec.Interface.{Format}

pub record AssetTypeMovieTicket : Type 0 where
  pub version : ℕ
  pub trading_restriction : Bytes
  pub age_restriction : Bytes
  pub venue : Bytes
  pub valid_from : ℕ
  pub expiration_timestamp : ℕ
  pub description : Bytes

-- `NewAssetTypeMovieTicket`: every field has its zero value.
abbrev pub new_movie_ticket : AssetTypeMovieTicket
new_movie_ticket = record {
  version = 0;
  trading_restriction = [];
  age_restriction = [];
  venue = [];
  valid_from = 0;
  expiration_timestamp = 0;
  description = [];
}

-- The values that `Bytes` writes, in its order.
unfoldable pub movie_ticket_writes : AssetTypeMovieTicket → List Chunk
movie_ticket_writes m =
    word 1 m.version
    ∷ text m.trading_restriction 3
    ∷ text m.age_restriction 5
    ∷ text m.venue 32
    ∷ word 8 m.valid_from
    ∷ word 8 m.expiration_timestamp
    ∷ text m.description 95
    ∷ []

-- The fields that `Write` reads, in its order.
unfoldable pub movie_ticket_reads : List (Statement AssetTypeMovieTicket)
movie_ticket_reads =
    checked 1 (λ m v. record m { version = v })
    ∷ trimmed 3 (λ m v. record m { trading_restriction = v })
    ∷ trimmed 5 (λ m v. record m { age_restriction = v })
    ∷ trimmed 32 (λ m v. record m { venue = v })
    ∷ checked 8 (λ m v. record m { valid_from = v })
    ∷ checked 8 (λ m v. record m { expiration_timestamp = v })
    ∷ trimmed 95 (λ m v. record m { description = v })
    ∷ []

-- What a reader of the bytes of m has: m, with its texts trimmed.
abbrev pub movie_ticket_as_read : AssetTypeMovieTicket → AssetTypeMovieTicket
movie_ticket_as_read m = record {
  version = m.version;
  trading_restriction = trim m.trading_restriction;
  age_restriction = trim m.age_restriction;
  venue = trim m.venue;
  valid_from = m.valid_from;
  expiration_timestamp = m.expiration_timestamp;
  description = trim m.description;
}

unfoldable pub movie_ticket_len : AssetTypeMovieTicket → ℕ
movie_ticket_len m = 152

unfoldable pub movie_ticket_format : Format AssetTypeMovieTicket
unfolding movie_ticket_writes movie_ticket_reads movie_ticket_len
movie_ticket_format = record {
  writes = movie_ticket_writes;
  reads = movie_ticket_reads;
  count = 152;
  len = movie_ticket_len;
  Sized = λ m. Unit {0};
  agree = λ m sized. refl;
  as_read = movie_ticket_as_read;
  reads_back = λ old m. refl;
  len-count = λ m sized. refl;
  total-count = refl;
}
