-- ===== src/Node.antt =====
-- `cmd/smartcontractd/node/tx_handler.go`: one transaction through the services. The part from the
-- validator on runs under the lock of the wallet's address, so that handling one is one step.
pub mod Steps
pub mod Replay
pub mod Sends
use smart_contract.Prelude.{
  ℕ, Bytes, Option, none, some, List, [], ◌∷◌, ◌++◌, Outcome, Error, ok, err, panic, ◌>>=◌,
}
use smart_contract.Protocol.{Message}
use smart_contract.Btcutil.{Btcutil}
use smart_contract.Wire.{Wire}
use smart_contract.State.{Contract}
use smart_contract.Inspector.{Transaction, make_transaction, promote_transaction}
use smart_contract.Wallet.{Wallet}
use smart_contract.Request.Defs.{Fee}
use smart_contract.Request.Transfer.{Floats}
use smart_contract.Request.Service.{pre_filter, tx_of, process}
use smart_contract.Response.Service.{StateInterface}
use smart_contract.Response.Service as Response
use smart_contract.Validator.Service.{Verdict, check_and_fetch}

-- What the handler is built with. `parse` is `protocol.New` and `get_tx` the network's `GetTX`.
pub record Services (Addr MsgTx Key Store : Type 0) : Type 0 where
  pub parse : Bytes → Outcome Message
  pub get_tx : Bytes → Outcome MsgTx
  pub wallet : Wallet Addr MsgTx Key
  pub state : StateInterface Store
  pub floats : Floats
  pub fee : Fee Addr

-- The contracts that are stored, and the transactions given to `Announce`, the last one first.
pub record World (MsgTx Store : Type 0) : Type 0 where
  pub store : Store
  pub announced : List MsgTx

module _ {Addr MsgTx Key Store : Type 0} ⦃b : Btcutil Addr⦄ ⦃w : Wire MsgTx⦄
    (s : Services Addr MsgTx Key Store) (now nano : ℕ) where
  abbrev pub announce : MsgTx → World MsgTx Store → World MsgTx Store
  announce tx world = record world { announced = tx ∷ world.announced }

  -- What follows the validator.
  unfoldable pub act :
      Transaction Addr MsgTx → World MsgTx Store → Verdict MsgTx → Outcome (World MsgTx Store)
  act itx world (Verdict.reject_with tx) = ok (announce tx world)
  act itx world Verdict.ignore = ok world
  act itx world (Verdict.accept c) = do
    res ← process s.wallet s.floats s.fee now itx c
    store ← Response.process s.state now nano res c world.store
    tx ← tx_of res
    ok (announce tx (record world { store = store }))

  -- The handler after the transaction was found to concern the protocol.
  unfoldable pub handle_transaction :
      Transaction Addr MsgTx → World MsgTx Store → Outcome (World MsgTx Store)
  handle_transaction itx world = do
    filtered ← pre_filter s.wallet itx
    elim filtered [
      | none ↦ ok world
      | some request ↦ do
        promoted ← promote_transaction s.get_tx request
        verdict ← check_and_fetch s.state s.wallet now nano promoted world.store
        act promoted world verdict
    ]

  unfoldable pub steps : MsgTx → World MsgTx Store → Outcome (World MsgTx Store)
  steps tx world = do
    found ← make_transaction s.parse tx
    elim found [ none ↦ ok world | some itx ↦ handle_transaction itx world ]

  -- An error is logged, and the handler returns nil: the world is as it was.
  unfoldable pub settle_errors :
      World MsgTx Store → Outcome (World MsgTx Store) → Outcome (World MsgTx Store)
  settle_errors world (ok after) = ok after
  settle_errors world (err e) = ok world
  settle_errors world panic = panic

  unfoldable pub handle : MsgTx → World MsgTx Store → Outcome (World MsgTx Store)
  handle tx world = settle_errors world (steps tx world)
