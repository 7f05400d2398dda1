-- ===== src/Node/Steps.antt =====
-- What handling a transaction does to the world, as steps.
use smart_contract.Prelude.{
  ℕ, Option, none, some, ◌∷◌, ◌≡◌, refl, ap, subst, Outcome, ok, err, panic, >>=-eq-ok, arith,
}
use smart_contract.Btcutil.{Btcutil}
use smart_contract.Wire.{Wire}
use smart_contract.State.{Contract}
use smart_contract.Inspector.{Transaction, make_transaction, promote_transaction}
use smart_contract.Request.Service.{pre_filter, tx_of, process}
use smart_contract.Response.Service as Response
use smart_contract.Validator.Service.{Verdict, check_and_fetch}
use smart_contract.Node.{Services, World, act, handle_transaction, steps, settle_errors, handle}

ok-injective : {A : Type 0} {x y : A} → ok x ≡ ok y → x ≡ y
ok-injective {x} h = ap (λ o. elim o [ ok a ↦ a | _ ↦ x ]) h

tx_of-eq-ok :
    {Addr MsgTx : Type 0} (itx : Transaction Addr MsgTx) {tx : MsgTx}
    → tx_of itx ≡ ok tx
    → itx.msg_tx ≡ some tx
tx_of-eq-ok itx h = ground arith

module _ {Addr MsgTx Key Store : Type 0} ⦃b : Btcutil Addr⦄ ⦃w : Wire MsgTx⦄
    (s : Services Addr MsgTx Key Store) (now nano : ℕ) (world : World MsgTx Store) where
  -- The ways in which handling a transaction ends: nothing is done, a rejection is announced, or the
  -- response to an accepted request is written to the store and announced.
  pub data Handled : World MsgTx Store → Type 0 where
    unchanged : Handled world
    turned_down :
        (itx : Transaction Addr MsgTx) (reply : MsgTx)
        → check_and_fetch s.state s.wallet now nano itx world.store ≡ ok (Verdict.reject_with reply)
        → Handled (record world { announced = reply ∷ world.announced })
    answered :
        (itx res : Transaction Addr MsgTx) (c : Contract) (reply : MsgTx) (store : Store)
        → check_and_fetch s.state s.wallet now nano itx world.store ≡ ok (Verdict.accept c)
        → process s.wallet s.floats s.fee now itx c ≡ ok res
        → Response.process s.state now nano res c world.store ≡ ok store
        → res.msg_tx ≡ some reply
        → Handled (record { store = store; announced = reply ∷ world.announced })

  act-Handled :
      (itx : Transaction Addr MsgTx) (v : Verdict MsgTx) {after : World MsgTx Store}
      → check_and_fetch s.state s.wallet now nano itx world.store ≡ ok v
      → act s now nano itx world v ≡ ok after
      → Handled after
  unfolding act
  act-Handled itx (Verdict.reject_with tx) e h =
      subst Handled (ok-injective h) (Handled.turned_down itx tx e)
  act-Handled itx Verdict.ignore e h = subst Handled (ok-injective h) Handled.unchanged
  act-Handled itx (Verdict.accept c) e h =
      let (res, e1, h1) = >>=-eq-ok (process s.wallet s.floats s.fee now itx c) _ h in
      let (store, e2, h2) = >>=-eq-ok (Response.process s.state now nano res c world.store) _ h1 in
      let (tx, e3, h3) = >>=-eq-ok (tx_of res) _ h2 in
      subst Handled (ok-injective h3)
        (Handled.answered itx res c tx store e e1 e2 (tx_of-eq-ok res e3))

  -- A `nil` ends the handler with nothing done.
  when_some :
      {A : Type 0} (o : Option A) (f : A → Outcome (World MsgTx Store)) {after : World MsgTx Store}
      → elim o [ none ↦ ok world | some a ↦ f a ] ≡ ok after
      → ((a : A) → f a ≡ ok after → Handled after)
      → Handled after
  when_some none f h k = subst Handled (ok-injective h) Handled.unchanged
  when_some (some a) f h k = k a h

  handle_transaction-Handled :
      (itx : Transaction Addr MsgTx) {after : World MsgTx Store}
      → handle_transaction s now nano itx world ≡ ok after
      → Handled after
  unfolding handle_transaction
  handle_transaction-Handled itx h =
      let (filtered, e, h1) = >>=-eq-ok (pre_filter s.wallet itx) _ h in
      when_some filtered _ h1 λ request h2.
        let (promoted, e2, h3) = >>=-eq-ok (promote_transaction s.get_tx request) _ h2 in
        let (v, e3, h4) =
          >>=-eq-ok (check_and_fetch s.state s.wallet now nano promoted world.store) _ h3 in
        act-Handled promoted v e3 h4

  steps-Handled :
      (tx : MsgTx) {after : World MsgTx Store}
      → steps s now nano tx world ≡ ok after
      → Handled after
  unfolding steps
  steps-Handled tx h =
      let (found, e, h1) = >>=-eq-ok (make_transaction s.parse tx) _ h in
      when_some found _ h1 λ itx h2. handle_transaction-Handled itx h2

  settle_errors-Handled :
      (o : Outcome (World MsgTx Store)) {after : World MsgTx Store}
      → ((v : World MsgTx Store) → o ≡ ok v → Handled v)
      → settle_errors s now nano world o ≡ ok after
      → Handled after
  unfolding settle_errors
  settle_errors-Handled (ok v) h e = subst Handled (ok-injective e) (h v refl)
  settle_errors-Handled (err x) h e = subst Handled (ok-injective e) Handled.unchanged
  settle_errors-Handled panic h e = cc

  -- The handler of a transaction that ends without a panic has done nothing, or has announced one
  -- rejection and left the store, or has written what the response service makes of the request
  -- service's response to an accepted request and announced that response.
  pub handle-Handled :
      (tx : MsgTx) {after : World MsgTx Store}
      → handle s now nano tx world ≡ ok after
      → Handled after
  unfolding handle
  handle-Handled tx h =
      settle_errors-Handled (steps s now nano tx world) (λ v e. steps-Handled tx e) h
