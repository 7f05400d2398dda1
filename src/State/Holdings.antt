-- ===== src/State/Holdings.antt =====
-- `holding.go` and `holding_status.go`: what one address holds of an asset.
use smart_contract.Prelude.{
  ℕ, ◌^◌, Bytes, Bool, false, true, ◌==◌, ltb, if◌then◌else◌, Option, none,
}

pub record HoldingStatus : Type 0 where
  pub code : Bytes
  pub expires : ℕ

-- `time.Now().Unix()` is the argument `now`. `int64(o.Expires)` is negative from 2 ^ 63 on.
unfoldable pub is_expired : ℕ → HoldingStatus → Bool
is_expired now o =
    if o.expires == 0 then false else if ltb o.expires (2 ^ 63) then ltb o.expires now else true

pub record Holding : Type 0 where
  pub address : Bytes
  pub balance : ℕ
  pub holding_status : Option HoldingStatus
  pub created_at : ℕ

-- `time.Now().UnixNano()` is the argument `nano`.
abbrev pub new_holding : ℕ → Bytes → ℕ → Holding
new_holding nano address qty = record {
  address = address;
  balance = qty;
  holding_status = none;
  created_at = nano;
}
