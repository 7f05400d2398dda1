-- ===== src/Validator/Formation.antt =====
-- `contract_amendment_validator.go`, `asset_definition_validator.go`,
-- `asset_modification_validator.go`, and the validators of votes, which the service does not
-- register.
use smart_contract.Prelude.{
  ℕ, ◌^◌, ltb, ◌==◌, Bytes, bytes_key, Bool, true, not, ◌&&◌, if◌then◌else◌, Outcome, ◌>>=◌, ◌>>◌,
  index, or_err, or_panic, rejected,
}
use smart_contract.Prelude.Dict.{get, size}
use smart_contract.Protocol.{Message}
use smart_contract.Protocol.RejectionCode
use smart_contract.Btcutil.{Btcutil}
use smart_contract.State.{Contract, is_some, is_owner, can_vote, new_ballot_from_ballot_cast}
use smart_contract.Inspector.{Transaction}
use smart_contract.Request.Defs.{
  as_contract_amendment, as_asset_definition, as_asset_modification, as_ballot_cast,
}
use smart_contract.Validator.Transfer.{unless}

-- A quantity of 0 means that any number of assets is allowed.
unfoldable pub can_have_more_assets : Contract → Bool
can_have_more_assets c = if c.qty == 0 then true else ltb (size c.assets) c.qty

unfoldable pub validate_asset_definition : Contract → Message → Outcome (Unit {0})
unfolding can_have_more_assets
validate_asset_definition c msg = do
  m ← or_panic (as_asset_definition msg)
  unless (not (is_some (get m.asset_id c.assets))) RejectionCode.duplicate_asset_id
  unless (can_have_more_assets c) RejectionCode.fixed_quantity

unfoldable pub validate_asset_modification : Contract → Message → Outcome (Unit {0})
validate_asset_modification c msg = do
  m ← or_panic (as_asset_modification msg)
  a ← or_err (get m.asset_id c.assets) (rejected RejectionCode.asset_not_found)
  unless (a.revision == m.asset_revision) RejectionCode.asset_revision

-- `int(m.RestrictedQty)` is negative, and so below any length, from 2 ^ 63 on.
unfoldable pub int_less : ℕ → ℕ → Bool
int_less a n = if ltb a (2 ^ 63) then ltb a n else true

unfoldable pub validate_contract_amendment : Contract → Message → Outcome (Unit {0})
unfolding int_less
validate_contract_amendment c msg = do
  m ← or_panic (as_contract_amendment msg)
  unless (not (ltb 0 c.qty && int_less m.restricted_qty (size c.assets)))
      RejectionCode.contract_qty_reduction

module _ {Addr MsgTx : Type 0} ⦃b : Btcutil Addr⦄ where
  -- `code` is what `c.CanVote` returns.
  unfoldable pub validate_ballot_cast :
      ℕ → Transaction Addr MsgTx → Contract → Message → Outcome (Unit {0})
  validate_ballot_cast nano itx c msg = do
    m ← or_panic (as_ballot_cast msg)
    vote ← or_err (get m.vote_txn_id c.votes) (rejected RejectionCode.vote_not_found)
    sender ← index itx.input_addrs 0
    let code = can_vote nano c vote (new_ballot_from_ballot_cast nano sender m)
    unless (code == RejectionCode.ok) code

  -- The first argument is the text of the transaction's hash.
  unfoldable pub validate_initiative :
      Bytes → Transaction Addr MsgTx → Contract → Outcome (Unit {0})
  validate_initiative tx_hash itx c = do
    unless (not (is_some (get tx_hash c.votes))) RejectionCode.vote_exists
    sender ← index itx.input_addrs 0
    unless (is_owner c (b.encode_address sender)) RejectionCode.unknown_address

unfoldable pub validate_referendum : Bytes → Contract → Outcome (Unit {0})
validate_referendum tx_hash c =
    unless (not (is_some (get tx_hash c.votes))) RejectionCode.vote_exists
