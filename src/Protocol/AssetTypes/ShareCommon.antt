-- ===== src/Protocol/AssetTypes/ShareCommon.antt =====
-- `AssetTypeShareCommon` in `pkg/protocol/asset_types.go`: what its `Bytes`, `Write` and `Len` do.
use smart_contract.Prelude.{ℕ, refl, Bytes, List, [], ◌∷◌}
use smart_contract.Protocol.Requests.{Float32}
use smart_contract.Protocol.Codec.{trim, Chunk, text, word, Statement, trimmed, checked}
use smart_contract.Protocol.Codec.Interface.{Format}

pub record AssetTypeShareCommon : Type 0 where
  pub version : ℕ
  pub trading_restriction : Bytes
  pub dividend_type : ℕ
  pub dividend_var : Float32
  pub dividend_fixed : Float32
  pub distribution_interval : ℕ
  pub guaranteed : ℕ
  pub ticker : Bytes
  pub isin : Bytes
  pub description : Bytes

-- `NewAssetTypeShareCommon`: every field has its zero value.
abbrev pub new_share_common : AssetTypeShareCommon
new_share_common = record {
  version = 0;
  trading_restriction = [];
  dividend_type = 0;
  dividend_var = 0;
  dividend_fixed = 0;
  distribution_interval = 0;
  guaranteed = 0;
  ticker = [];
  isin = [];
  description = [];
}

-- The values that `Bytes` writes, in its order.
unfoldable pub share_common_writes : AssetTypeShareCommon → List Chunk
share_common_writes m =
    word 1 m.version
    ∷ text m.trading_restriction 3
    ∷ word 1 m.dividend_type
    ∷ word 4 m.dividend_var
    ∷ word 4 m.dividend_fixed
    ∷ word 1 m.distribution_interval
    ∷ word 1 m.guaranteed
    ∷ text m.ticker 5
    ∷ text m.isin 12
    ∷ text m.description 120
    ∷ []

-- The fields that `Write` reads, in its order.
unfoldable pub share_common_reads : List (Statement AssetTypeShareCommon)
share_common_reads =
    checked 1 (λ m v. record m { version = v })
    ∷ trimmed 3 (λ m v. record m { trading_restriction = v })
    ∷ checked 1 (λ m v. record m { dividend_type = v })
    ∷ checked 4 (λ m v. record m { dividend_var = v })
    ∷ checked 4 (λ m v. record m { dividend_fixed = v })
    ∷ checked 1 (λ m v. record m { distribution_interval = v })
    ∷ checked 1 (λ m v. record m { guaranteed = v })
    ∷ trimmed 5 (λ m v. record m { ticker = v })
    ∷ trimmed 12 (λ m v. record m { isin = v })
    ∷ trimmed 120 (λ m v. record m { description = v })
    ∷ []

-- What a reader of the bytes of m has: m, with its texts trimmed.
abbrev pub share_common_as_read : AssetTypeShareCommon → AssetTypeShareCommon
share_common_as_read m = record {
  version = m.version;
  trading_restriction = trim m.trading_restriction;
  dividend_type = m.dividend_type;
  dividend_var = m.dividend_var;
  dividend_fixed = m.dividend_fixed;
  distribution_interval = m.distribution_interval;
  guaranteed = m.guaranteed;
  ticker = trim m.ticker;
  isin = trim m.isin;
  description = trim m.description;
}

unfoldable pub share_common_len : AssetTypeShareCommon → ℕ
share_common_len m = 152

unfoldable pub share_common_format : Format AssetTypeShareCommon
unfolding share_common_writes share_common_reads share_common_len
share_common_format = record {
  writes = share_common_writes;
  reads = share_common_reads;
  count = 152;
  len = share_common_len;
  Sized = λ m. Unit {0};
  agree = λ m sized. refl;
  as_read = share_common_as_read;
  reads_back = λ old m. refl;
  len-count = λ m sized. refl;
  total-count = refl;
}
