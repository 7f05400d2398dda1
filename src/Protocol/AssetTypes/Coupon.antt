-- ===== src/Protocol/AssetTypes/Coupon.antt =====
-- `AssetTypeCoupon` in `pkg/protocol/asset_types.go`: what its `Bytes`, `Write` and `Len` do.
use smart_contract.Prelude.{ℕ, refl, Bytes, List, [], ◌∷◌}
use smart_contract.Protocol.Codec.{trim, Chunk, text, word, Statement, trimmed, checked}
use smart_contract.Protocol.Codec.Interface.{Format}

pub record AssetTypeCoupon : Type 0 where
  pub version : ℕ
  pub trading_restriction : Bytes
  pub redeeming_entity : Bytes
  pub expiry_date : ℕ
  pub issue_date : ℕ
  pub description : Bytes

-- `NewAssetTypeCoupon`: every field has its zero value.
abbrev pub new_coupon : AssetTypeCoupon
new_coupon = record {
  version = 0;
  trading_restriction = [];
  redeeming_entity = [];
  expiry_date = 0;
  issue_date = 0;
  description = [];
}

-- The values that `Bytes` writes, in its order.
unfoldable pub coupon_writes : AssetTypeCoupon → List Chunk
coupon_writes m =
    word 1 m.version
    ∷ text m.trading_restriction 3
    ∷ text m.redeeming_entity 32
    ∷ word 8 m.expiry_date
    ∷ word 8 m.issue_date
    ∷ text m.description 100
    ∷ []

-- The fields that `Write` reads, in its order.
unfoldable pub coupon_reads : List (Statement AssetTypeCoupon)
coupon_reads =
    checked 1 (λ m v. record m { version = v })
    ∷ trimmed 3 (λ m v. record m { trading_restriction = v })
    ∷ trimmed 32 (λ m v. record m { redeeming_entity = v })
    ∷ checked 8 (λ m v. record m { expiry_date = v })
    ∷ checked 8 (λ m v. record m { issue_date = v })
    ∷ trimmed 100 (λ m v. record m { description = v })
    ∷ []

-- What a reader of the bytes of m has: m, with its texts trimmed.
abbrev pub coupon_as_read : AssetTypeCoupon → AssetTypeCoupon
coupon_as_read m = record {
  version = m.version;
  trading_restriction = trim m.trading_restriction;
  redeeming_entity = trim m.redeeming_entity;
  expiry_date = m.expiry_date;
  issue_date = m.issue_date;
  description = trim m.description;
}

unfoldable pub coupon_len : AssetTypeCoupon → ℕ
coupon_len m = 152

unfoldable pub coupon_format : Format AssetTypeCoupon
unfolding coupon_writes coupon_reads coupon_len
coupon_format = record {
  writes = coupon_writes;
  reads = coupon_reads;
  count = 152;
  len = coupon_len;
  Sized = λ m. Unit {0};
  agree = λ m sized. refl;
  as_read = coupon_as_read;
  reads_back = λ old m. refl;
  len-count = λ m sized. refl;
  total-count = refl;
}
