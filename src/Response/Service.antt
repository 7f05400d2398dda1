-- ===== src/Response/Service.antt =====
-- `response_service.go`: the dispatch of a response to its handler, and the write of the contract.
use smart_contract.Prelude.{ℕ, Bytes, Outcome, Error, ok, err, ◌>>=◌}
use smart_contract.Protocol.{Message}
use smart_contract.Btcutil.{Btcutil}
use smart_contract.State.{Contract}
use smart_contract.Inspector.{Transaction}
use smart_contract.Request.Service.{message_of}
use smart_contract.Response.Handlers.{
  settlement_handler, confiscation_handler, freeze_handler, thaw_handler, asset_creation_handler,
  contract_formation_handler,
}

-- `state.StateInterface`: a store of contracts by identifier. A read or a write may fail.
pub record StateInterface (Store : Type 0) : Type 0 where
  pub read : Bytes → Store → Outcome Contract
  pub write : Contract → Store → Outcome Store

module _ {Addr MsgTx : Type 0} ⦃b : Btcutil Addr⦄ (now nano : ℕ)
    (itx : Transaction Addr MsgTx) where
  -- `s.handlers[msg.Type()]` and the call of the handler. The handlers of a reconciliation and of
  -- a rejection change nothing.
  unfoldable pub run_handler : Message → Contract → Outcome Contract
  run_handler (Message.asset_creation m) c = asset_creation_handler now nano itx m c
  run_handler (Message.contract_formation m) c = contract_formation_handler m c
  run_handler (Message.settlement m) c = settlement_handler now nano itx m c
  run_handler (Message.freeze m) c = freeze_handler now nano itx m c
  run_handler (Message.thaw m) c = thaw_handler now nano itx m c
  run_handler (Message.confiscation m) c = confiscation_handler now nano itx m c
  run_handler (Message.reconciliation m) c = ok c
  run_handler (Message.rejection m) c = ok c
  run_handler _ c = err Error.no_handler

module _ {Addr MsgTx Store : Type 0} ⦃b : Btcutil Addr⦄ (state : StateInterface Store)
    (now nano : ℕ) where
  unfoldable pub process : Transaction Addr MsgTx → Contract → Store → Outcome Store
  process itx contract store = do
    msg ← message_of itx
    c ← run_handler now nano itx msg contract
    state.write c store
