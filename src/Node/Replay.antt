-- ===== src/Node/Replay.antt =====
-- The replay test of `CheckAndFetch` over the life of a node.
use smart_contract.Prelude.{
  ℕ, ltb, Bytes, bytes_key, false, if-cases, [], ◌≡◌, refl, ◌∙◌, ◌≢◌, ◌⊎◌, inl, inr, Outcome, Error,
  ok, err, panic, >>=-eq-ok, index, or_err, arith,
}
use smart_contract.Protocol.{Message, type_of, minimum}
use smart_contract.Protocol.RejectionCode
use smart_contract.Btcutil.{Btcutil}
use smart_contract.Wire.{Wire}
use smart_contract.TxBuilder.{address_of, for_address, utxos_value}
use smart_contract.State.{Contract, known_tx, has_hash, new_contract}
use smart_contract.Inspector.{Transaction}
use smart_contract.Wallet.{Wallet}
use smart_contract.Request.Service.{tx_of, message_of}
use smart_contract.Response.Service.{StateInterface}
use smart_contract.Response.Service as Response
use smart_contract.Response.Frame.{hashes-run_handler}
use smart_contract.Validator.Service.{
  Verdict, reject_verdict, judge, is_permitted, run_validator, is_contract_offer, create_contract,
  find_contract, check_contract, continue_check, check_and_fetch,
}
use smart_contract.Validator.Acceptance.{check_and_fetch-Accepted}
use smart_contract.Node.{Services, World, handle}
use smart_contract.Node.Steps.{Handled, handle-Handled}

-- What a store promises: after a write, a read gives a contract with the hashes of the one that was
-- written, or what it gave before.
pub record IsLawful {Store : Type 0} (state : StateInterface Store) : Type 0 where
  pub read-write :
      (c : Contract) (store after : Store)
      → state.write c store ≡ ok after
      → (id : Bytes) (d : Contract) → state.read id after ≡ ok d
      → (d.hashes ≡ c.hashes) ⊎ (state.read id store ≡ ok d)

-- No contract of the store has the hash of a transaction.
abbrev pub HasNoHashes : {Store : Type 0} → StateInterface Store → Store → Type 0
HasNoHashes state store = (id : Bytes) (c : Contract) → state.read id store ≡ ok c → c.hashes ≡ []

module _ {Addr MsgTx Store : Type 0} ⦃b : Btcutil Addr⦄ (state : StateInterface Store) (nano : ℕ)
    (itx : Transaction Addr MsgTx) where
  hashes-create_contract :
      (address issuer : Addr) (m : Message) (found : Outcome Contract) {c : Contract}
      → create_contract state nano itx address issuer m found ≡ ok c
      → c.hashes ≡ []
  unfolding create_contract new_contract
  hashes-create_contract address issuer (Message.contract_offer co) (err Error.contract_not_found)
        h =
      ground arith
  hashes-create_contract address issuer m (err Error.contract_not_found) h = cc
  hashes-create_contract address issuer m (ok c) h = cc
  hashes-create_contract address issuer m (err e) h = cc
  hashes-create_contract address issuer m panic h = cc

  -- A contract that is found or created for a request has no hash, where none of the store has.
  hashes-find_contract :
      (m : Message) (address : Addr) (store : Store) {c : Contract}
      → HasNoHashes state store
      → find_contract state nano itx m address store ≡ ok c
      → c.hashes ≡ []
  unfolding find_contract
  hashes-find_contract m address store clean h =
      let found = state.read (b.encode_address address) store in
      elim (if-cases (is_contract_offer (type_of m)) _ _ h) [
        | inl (offer, h1) ↦
            let (issuer, e, h2) = >>=-eq-ok (index itx.input_addrs 0) _ h1 in
            hashes-create_contract address issuer m found h2
        | inr (other, h1) ↦
            let (d, e, h2) = >>=-eq-ok found _ h1 in
            ground (arith, clean (b.encode_address address) d e)
      ]

known_tx-clean : (c : Contract) (tx_hash : Bytes) → c.hashes ≡ [] → known_tx c tx_hash ≡ false
unfolding known_tx has_hash
known_tx-clean c tx_hash clean = rw clean refl

module _ {Addr MsgTx Key : Type 0} ⦃b : Btcutil Addr⦄ (wallet : Wallet Addr MsgTx Key)
    (itx : Transaction Addr MsgTx) where
  reject_verdict-ne-ignore : (code : ℕ) → reject_verdict wallet itx code ≢ ok Verdict.ignore
  unfolding reject_verdict
  reject_verdict-ne-ignore code h = ground arith

  judge-ne-ignore :
      (c : Contract) (o : Outcome (Unit {0})) → judge wallet itx c o ≢ ok Verdict.ignore
  unfolding judge
  judge-ne-ignore c (ok u) h = cc
  judge-ne-ignore c (err (Error.rejected code)) h = reject_verdict-ne-ignore code h
  judge-ne-ignore c (err e) h = cc
  judge-ne-ignore c panic h = cc

module _ {Addr MsgTx Key : Type 0} ⦃b : Btcutil Addr⦄ ⦃w : Wire MsgTx⦄
    (wallet : Wallet Addr MsgTx Key) (now : ℕ) (itx : Transaction Addr MsgTx) (m : Message)
    (least : ℕ) (address : Addr) where
  check_contract-ne-ignore :
      (c : Contract)
      → c.hashes ≡ []
      → check_contract wallet now itx m least address c ≢ ok Verdict.ignore
  unfolding check_contract
  check_contract-ne-ignore c clean h =
      let (utxos, e1, h1) = >>=-eq-ok (for_address itx.utxos address) _ h in
      elim (if-cases (ltb (utxos_value utxos) least) _ _ h1) [
        | inl (short, r) ↦ reject_verdict-ne-ignore wallet itx RejectionCode.insufficient_value r
        | inr (paid, h2) ↦
            let (tx, e3, h3) = >>=-eq-ok (tx_of itx) _ h2 in
            elim (if-cases (known_tx c (w.tx_hash_string tx)) _ _ h3) [
              | inl (known, r) ↦ ground (arith, known, known_tx-clean c (w.tx_hash_string tx) clean)
              | inr (unknown, h4) ↦
                  let (permitted, e5, h5) = >>=-eq-ok (is_permitted itx m c) _ h4 in
                  elim (if-cases permitted _ _ h5) [
                    | inl (may, r) ↦ judge-ne-ignore wallet itx c (run_validator now itx c m) r
                    | inr (may_not, r) ↦
                        reject_verdict-ne-ignore wallet itx RejectionCode.issuer_address r
                  ]
            ]
      ]

  continue_check-ne-ignore :
      (found : Outcome Contract)
      → ((c : Contract) → found ≡ ok c → c.hashes ≡ [])
      → continue_check wallet now itx m least address found ≢ ok Verdict.ignore
  unfolding continue_check
  continue_check-ne-ignore (ok c) clean h = check_contract-ne-ignore c (clean c refl) h
  continue_check-ne-ignore (err Error.contract_already_exists) clean h =
      reject_verdict-ne-ignore wallet itx RejectionCode.contract_exists h
  continue_check-ne-ignore (err e) clean h = cc
  continue_check-ne-ignore panic clean h = cc

module _ {Addr MsgTx Key Store : Type 0} ⦃b : Btcutil Addr⦄ ⦃w : Wire MsgTx⦄
    (s : Services Addr MsgTx Key Store) where
  process-HasNoHashes :
      IsLawful s.state
      → (now nano : ℕ) (itx : Transaction Addr MsgTx) (c : Contract) (store : Store) {after : Store}
      → c.hashes ≡ []
      → Response.process s.state now nano itx c store ≡ ok after
      → HasNoHashes s.state store
      → HasNoHashes s.state after
  unfolding Response.process
  process-HasNoHashes lawful now nano itx c store {after} none_yet h clean id d stored =
      let (msg, e1, h1) = >>=-eq-ok (message_of itx) _ h in
      let (c', e2, h2) = >>=-eq-ok (Response.run_handler now nano itx msg c) _ h1 in
      elim (lawful.read-write c' store after h2 id d stored) [
        | inl written ↦ written ∙ hashes-run_handler now nano itx msg c e2 ∙ none_yet
        | inr before ↦ clean id d before
      ]

  Handled-HasNoHashes :
      IsLawful s.state
      → (now nano : ℕ) (world : World MsgTx Store) {after : World MsgTx Store}
      → Handled s now nano world after
      → HasNoHashes s.state world.store
      → HasNoHashes s.state after.store
  Handled-HasNoHashes lawful now nano world Handled.unchanged clean = clean
  Handled-HasNoHashes lawful now nano world (Handled.turned_down itx reply e) clean = clean
  Handled-HasNoHashes lawful now nano world (Handled.answered itx res c reply store e e1 e2 e3)
        clean =
      let accepted = check_and_fetch-Accepted s.state s.wallet now nano itx world.store e in
      process-HasNoHashes lawful now nano res c world.store
        (hashes-find_contract s.state nano itx accepted.m accepted.address world.store clean
          accepted.found)
        e2 clean

  -- The worlds that a node comes to from a world, one transaction after another.
  pub data Reachable (start : World MsgTx Store) : World MsgTx Store → Type 0 where
    start_here : Reachable start start
    step :
        {before after : World MsgTx Store} (now nano : ℕ) (tx : MsgTx)
        → Reachable start before
        → handle s now nano tx before ≡ ok after
        → Reachable start after

  Reachable-HasNoHashes :
      IsLawful s.state
      → {start world : World MsgTx Store} → Reachable start world
      → HasNoHashes s.state start.store
      → HasNoHashes s.state world.store
  Reachable-HasNoHashes lawful Reachable.start_here clean = clean
  Reachable-HasNoHashes lawful (Reachable.step {before = before} now nano tx r e) clean =
      Handled-HasNoHashes lawful now nano before (handle-Handled s now nano before tx e)
        (Reachable-HasNoHashes lawful r clean)

  check_and_fetch-ne-ignore :
      (now nano : ℕ) (itx : Transaction Addr MsgTx) (store : Store)
      → HasNoHashes s.state store
      → check_and_fetch s.state s.wallet now nano itx store ≢ ok Verdict.ignore
  unfolding check_and_fetch
  check_and_fetch-ne-ignore now nano itx store clean h =
      let (m, e1, h1) = >>=-eq-ok (message_of itx) _ h in
      let (least, e2, h2) = >>=-eq-ok (or_err (minimum (type_of m)) Error.no_minimum) _ h1 in
      let (receiver, e3, h3) = >>=-eq-ok (index itx.outputs 0) _ h2 in
      let (address, e4, h4) = >>=-eq-ok (address_of receiver) _ h3 in
      continue_check-ne-ignore s.wallet now itx m least address
        (find_contract s.state nano itx m address store)
        (λ c found. hashes-find_contract s.state nano itx m address store clean found) h4

  -- In no world that a node comes to from one whose stored contracts have no hashes, with a store that
  -- gives back the hashes that were written, does the replay test of `CheckAndFetch` hold a request
  -- back: a transaction that was answered before is checked and answered like a new one.
  pub replay_never_ignored :
      IsLawful s.state
      → (start world : World MsgTx Store) → HasNoHashes s.state start.store
      → Reachable start world
      → (now nano : ℕ) (itx : Transaction Addr MsgTx)
      → check_and_fetch s.state s.wallet now nano itx world.store ≢ ok Verdict.ignore
  replay_never_ignored lawful start world clean r now nano itx =
      check_and_fetch-ne-ignore now nano itx world.store (Reachable-HasNoHashes lawful r clean)
