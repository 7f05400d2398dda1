-- ===== src/Response/Frame.antt =====
-- What no response handler of `internal/response` touches.
use smart_contract.Prelude.{Option, refl, ℕ, Bytes, bytes_key, ◌≡◌, ap, ok, arith}
use smart_contract.Protocol.{Message}
use smart_contract.Btcutil.{Btcutil}
use smart_contract.State.{Contract, edit_contract, known_tx, has_hash}
use smart_contract.Inspector.{Transaction}
use smart_contract.Response.Handlers.{
  output_address, set_balances, settlement_handler, confiscation_handler, freeze_handler,
  thaw_handler, asset_creation_handler, contract_formation_handler,
}
use smart_contract.Response.Service.{run_handler}

module _ {Addr MsgTx : Type 0} ⦃b : Btcutil Addr⦄ (now nano : ℕ)
    (itx : Transaction Addr MsgTx) where
  pub hashes-run_handler :
      (msg : Message) (c : Contract) {c' : Contract}
      → run_handler now nano itx msg c ≡ ok c'
      → c'.hashes ≡ c.hashes
  unfolding run_handler settlement_handler confiscation_handler set_balances freeze_handler
      thaw_handler asset_creation_handler contract_formation_handler edit_contract
  hashes-run_handler (Message.settlement m) c e = ground arith
  hashes-run_handler _ c e = ground arith

  -- No response handler adds the hash of a transaction to the contract: where it succeeds, the
  -- replay test of the validator knows the transactions that it knew before, and no other.
  pub known_tx-run_handler :
      (msg : Message) (c : Contract) {c' : Contract}
      → run_handler now nano itx msg c ≡ ok c'
      → (tx_hash : Bytes) → known_tx c' tx_hash ≡ known_tx c tx_hash
  unfolding known_tx
  known_tx-run_handler msg c e tx_hash =
      ap (λ hashes. has_hash hashes tx_hash) (hashes-run_handler msg c e)

  -- The handlers read the outputs of the response, and not its transaction.
  pub run_handler-msg_tx :
      (tx : Option MsgTx) (msg : Message) (c : Contract)
      → run_handler now nano (record itx { msg_tx = tx }) msg c ≡ run_handler now nano itx msg c
  unfolding run_handler settlement_handler confiscation_handler set_balances freeze_handler
      thaw_handler asset_creation_handler contract_formation_handler output_address
  run_handler-msg_tx tx (Message.settlement m) c = refl
  run_handler-msg_tx tx _ c = refl
