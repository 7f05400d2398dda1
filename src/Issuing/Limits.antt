-- ===== src/Issuing/Limits.antt =====
-- The limit of a contract on the number of its assets.
use smart_contract.Prelude.{
  ℕ, suc, ◌^◌, ◌≤◌, ◌<◌, Bytes, bytes_eq, bytes_key, if◌then◌else◌, none, some, List, [], ◌∷◌, ◌≡◌,
  refl, ◌⊎◌, inl, inr, length, ok, arith, Option-cases,
}
use smart_contract.Prelude.Dict.{Dict, get, lookup, insert, lookup-insert, size}
use smart_contract.Protocol.{Message, AssetDefinition, ContractAmendment}
use smart_contract.Btcutil.{Btcutil}
use smart_contract.TxBuilder.{TxOutput}
use smart_contract.State.{Asset, Contract, new_asset, new_holding, edit_contract}
use smart_contract.Inspector.{Transaction}
use smart_contract.Request.Formation.{definition_creation, amendment_formation}
use smart_contract.Response.Handlers.{asset_creation_handler, contract_formation_handler}
use smart_contract.Response.Service.{run_handler}
use smart_contract.Validator.Formation.{validate_asset_definition, validate_contract_amendment}

-- The contract has no more assets than it allows; a quantity of 0 allows any number.
abbrev pub IsWithin : Contract → Type 0
IsWithin c = (c.qty ≡ 0) ⊎ (size c.assets ≤ c.qty)

length-insert :
    (k : Bytes) (v : Asset) (d : Dict Bytes Asset)
    → lookup k d ≡ none
    → length (insert k v d) ≡ suc (length d)
unfolding insert lookup
length-insert k v [] h = refl
length-insert k v ((j, w) ∷ d) h = ground (arith, length-insert k v d)

-- What the validator of an asset definition has tested.
validate_asset_definition-eq-ok :
    (c : Contract) (m : AssetDefinition)
    → validate_asset_definition c (Message.asset_definition m) ≡ ok tt
    → (get m.asset_id c.assets ≡ none) × ((c.qty ≡ 0) ⊎ (size c.assets < c.qty))
unfolding validate_asset_definition
validate_asset_definition-eq-ok c m h = elim (Option-cases (get m.asset_id c.assets)) [
  | inl absent ↦ (absent, grind (arith, h, absent))
  | inr (a, present) ↦ absurd (ground (arith, h, present))
]

module _ {Addr MsgTx : Type 0} ⦃b : Btcutil Addr⦄ (now nano : ℕ) (itx : Transaction Addr MsgTx)
    (c : Contract) (m : AssetDefinition) where
  -- The asset that a definition creates, all of it held by an address.
  abbrev pub issued : Addr → Asset
  issued a = new_asset nano (definition_creation m) (new_holding nano (b.to_string a) m.qty)

  -- The contract with that asset.
  abbrev pub with_issued : Addr → Dict Bytes Asset → Contract
  with_issued a d = record c { assets = some (insert m.asset_id (issued a) d) }

  -- An asset definition that the validator accepts is carried out: the asset is added under its
  -- identifier, all of it in one holding, the other assets stay, and the contract has no more
  -- assets than it allows.
  pub definition_keeps_limit :
      {d : Dict Bytes Asset} {o0 o1 : TxOutput Addr} {rest : List (TxOutput Addr)} {a : Addr}
      → validate_asset_definition c (Message.asset_definition m) ≡ ok tt
      → c.assets ≡ some d
      → itx.outputs ≡ o0 ∷ o1 ∷ rest
      → o1.address ≡ some a
      → (run_handler now nano itx (Message.asset_creation (definition_creation m)) c
          ≡ ok (with_issued a d))
        × ((key : Bytes)
            → get key (with_issued a d).assets
              ≡ (if bytes_eq key m.asset_id then some (issued a) else get key c.assets))
        × IsWithin (with_issued a d)
  unfolding run_handler asset_creation_handler new_asset definition_creation
  definition_keeps_limit {d} {a = a} valid made outs reaches =
      let (absent, room) = validate_asset_definition-eq-ok c m valid in
      (
        ground (arith, made, outs, reaches, absent),
        λ key. ground (arith, made, lookup-insert key m.asset_id (issued a) d),
        elim room [
          | inl free ↦ inl free
          | inr below ↦ inr (
              ground
                (arith, below, made, length-insert m.asset_id (issued a) d (rw made at absent)))
        ],
      )

module _ {Addr MsgTx : Type 0} ⦃b : Btcutil Addr⦄ (now nano : ℕ) (itx : Transaction Addr MsgTx)
    (c : Contract) (m : ContractAmendment) (revision : ℕ) where
  -- The contract that an amendment leaves.
  abbrev pub amended : Contract
  amended = edit_contract c (amendment_formation revision m)

  -- An amendment that the validator accepts is carried out, and keeps the contract within its limit
  -- where the contract had one.
  pub amendment_keeps_limit :
      validate_contract_amendment c (Message.contract_amendment m) ≡ ok tt
      → m.restricted_qty < 2 ^ 63
      → 0 < c.qty
      → (run_handler now nano itx (Message.contract_formation (amendment_formation revision m)) c
          ≡ ok amended)
        × IsWithin amended
  unfolding validate_contract_amendment run_handler contract_formation_handler edit_contract
      amendment_formation
  amendment_keeps_limit valid fits limited = (refl, inr (ground (arith, valid)))

  -- A contract without a limit may be amended to any limit, also to one that its assets exceed.
  pub amendment_breaks_limit :
      c.qty ≡ 0
      → 0 < m.restricted_qty
      → m.restricted_qty < size c.assets
      → (validate_contract_amendment c (Message.contract_amendment m) ≡ ok tt)
        × (run_handler now nano itx (Message.contract_formation (amendment_formation revision m)) c
            ≡ ok amended)
        × (¬ IsWithin amended)
  unfolding validate_contract_amendment run_handler contract_formation_handler edit_contract
      amendment_formation
  amendment_breaks_limit free some_limit over = (ground (arith, free), refl, λ within. ground arith)
