-- ===== src/State/Assets.antt =====
-- `asset.go`: an asset of a contract and its holdings.
use smart_contract.Prelude.{ℕ, Bytes, some, [], ◌∷◌}
use smart_contract.Prelude.Dict.{GoMap}
use smart_contract.Protocol.{AssetCreation, Float32}
use smart_contract.State.Holdings.{Holding}

pub record Asset : Type 0 where
  pub id : Bytes
  pub type : Bytes
  pub revision : ℕ
  pub authorization_flags : Bytes
  pub voting_system : ℕ
  pub vote_multiplier : ℕ
  pub qty : ℕ
  pub txn_fee_type : ℕ
  pub txn_fee_currency : Bytes
  pub txn_fee_var : Float32
  pub txn_fee_fixed : Float32
  pub holdings : GoMap Bytes Holding
  pub created_at : ℕ

-- A nil `AuthorizationFlags` is the empty list already, here and in `edit_asset`.
unfoldable pub new_asset : ℕ → AssetCreation → Holding → Asset
new_asset nano am holding = record {
  id = am.asset_id;
  type = am.asset_type;
  revision = 0;
  authorization_flags = am.authorization_flags;
  voting_system = 0;
  vote_multiplier = am.vote_multiplier;
  qty = am.qty;
  txn_fee_type = 0;
  txn_fee_currency = [];
  txn_fee_var = 0;
  txn_fee_fixed = 0;
  holdings = some ((holding.address, holding) ∷ []);
  created_at = nano;
}

unfoldable pub edit_asset : Asset → AssetCreation → Asset
edit_asset a am = record a {
  type = am.asset_type;
  authorization_flags = am.authorization_flags;
  voting_system = am.voting_system;
  vote_multiplier = am.vote_multiplier;
  qty = am.qty;
}
