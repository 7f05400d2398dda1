-- ===== src/Validator/Acceptance.antt =====
-- What holds of a request that `CheckAndFetch` lets through.
use smart_contract.Prelude.{
  get_elem?, index-eq-ok, ℕ, ◌≤◌, ltb, bytes_key, Bool, true, false, if-cases, some, List, ◌≡◌,
  refl, ◌≢◌, inl, inr, Outcome, Error, ok, err, panic, index, >>=-eq-ok, or_err, or_err-eq-ok,
  arith,
}
use smart_contract.Protocol.{Message, type_of, minimum}
use smart_contract.Btcutil.{Btcutil}
use smart_contract.Wire.{Wire}
use smart_contract.TxBuilder.{TxOutput, Utxo, address_of, for_address, utxos_value}
use smart_contract.State.{Contract, known_tx}
use smart_contract.Inspector.{Transaction}
use smart_contract.Wallet.{Wallet}
use smart_contract.Request.Service.{tx_of, message_of}
use smart_contract.Response.Service.{StateInterface}
use smart_contract.Validator.Service.{
  Verdict, reject_verdict, judge, is_permitted, run_validator, check_contract, continue_check,
  find_contract, check_and_fetch,
}

-- The checks that a contract has passed.
pub record IsChecked {Addr MsgTx : Type 0} ⦃b : Btcutil Addr⦄ ⦃w : Wire MsgTx⦄ (now : ℕ)
    (itx : Transaction Addr MsgTx) (m : Message) (least : ℕ) (address : Addr) (c : Contract)
    : Type 0 where
  pub utxos : List Utxo
  pub tx : MsgTx
  pub received : for_address itx.utxos address ≡ ok utxos
  pub paid : least ≤ utxos_value utxos
  pub has_tx : itx.msg_tx ≡ some tx
  pub unknown : known_tx c (w.tx_hash_string tx) ≡ false
  pub valid : run_validator now itx c m ≡ ok tt

module _ {Addr MsgTx Key : Type 0} ⦃b : Btcutil Addr⦄ (wallet : Wallet Addr MsgTx Key) where
  reject_verdict-ne-accept :
      (itx : Transaction Addr MsgTx) (code : ℕ) (c : Contract)
      → reject_verdict wallet itx code ≢ ok (Verdict.accept c)
  unfolding reject_verdict
  reject_verdict-ne-accept itx code c h = ground arith

  judge-eq-accept :
      (itx : Transaction Addr MsgTx) (c : Contract) (o : Outcome (Unit {0})) {c' : Contract}
      → judge wallet itx c o ≡ ok (Verdict.accept c')
      → (c' ≡ c) × (o ≡ ok tt)
  unfolding judge
  judge-eq-accept itx c (ok u) h = (cc, refl)
  judge-eq-accept itx c (err (Error.rejected code)) {c'} h =
      absurd (reject_verdict-ne-accept itx code c' h)
  judge-eq-accept itx c (err _) h = cc
  judge-eq-accept itx c panic h = cc

module _ {Addr MsgTx Key : Type 0} ⦃b : Btcutil Addr⦄ ⦃w : Wire MsgTx⦄
    (wallet : Wallet Addr MsgTx Key) (now : ℕ) (itx : Transaction Addr MsgTx) (m : Message)
    (least : ℕ) (address : Addr) where
  -- The permission check lets every sender through.
  is_permitted-eq-ok : (c : Contract) {p : Bool} → is_permitted itx m c ≡ ok p → p ≡ true
  unfolding is_permitted
  is_permitted-eq-ok c h = ground arith

  check_contract-eq-accept :
      (c : Contract) {c' : Contract}
      → check_contract wallet now itx m least address c ≡ ok (Verdict.accept c')
      → (c' ≡ c) × IsChecked now itx m least address c
  unfolding check_contract
  check_contract-eq-accept c {c'} h =
      let (utxos, e1, h1) = >>=-eq-ok (for_address itx.utxos address) _ h in
      elim (if-cases (ltb (utxos_value utxos) least) _ _ h1) [
        | inl (short, r) ↦ absurd (reject_verdict-ne-accept wallet itx _ c' r)
        | inr (paid, h2) ↦
            let (tx, e3, h3) = >>=-eq-ok (tx_of itx) _ h2 in
            elim (if-cases (known_tx c (w.tx_hash_string tx)) _ _ h3) [
              | inl (known, r) ↦ cc
              | inr (unknown, h4) ↦
                  let (permitted, e5, h5) = >>=-eq-ok (is_permitted itx m c) _ h4 in
                  let (same, valid) =
                    judge-eq-accept wallet itx c (run_validator now itx c m)
                      (rw (is_permitted-eq-ok c e5) at h5) in
                  (
                    same,
                    record {
                      utxos = utxos;
                      tx = tx;
                      received = e1;
                      paid = ground arith;
                      has_tx = ground arith;
                      unknown = unknown;
                      valid = valid;
                    },
                  )
            ]
      ]

  continue_check-eq-accept :
      (o : Outcome Contract) {c : Contract}
      → continue_check wallet now itx m least address o ≡ ok (Verdict.accept c)
      → (o ≡ ok c) × IsChecked now itx m least address c
  unfolding continue_check
  continue_check-eq-accept (ok c') h =
      let (same, checked) = check_contract-eq-accept c' h in rw same (refl, checked)
  continue_check-eq-accept (err Error.contract_already_exists) {c} h =
      absurd (reject_verdict-ne-accept wallet itx _ c h)
  continue_check-eq-accept (err _) h = cc
  continue_check-eq-accept panic h = cc

module _ {Addr MsgTx Key Store : Type 0} ⦃b : Btcutil Addr⦄ ⦃w : Wire MsgTx⦄
    (state : StateInterface Store) (wallet : Wallet Addr MsgTx Key) (now nano : ℕ)
    (itx : Transaction Addr MsgTx) (store : Store) where
  -- The message, the minimum and the address that a request was checked with.
  pub record Accepted (c : Contract) : Type 0 where
    pub m : Message
    pub least : ℕ
    pub address : Addr
    pub receiver : TxOutput Addr
    pub is_first : get_elem? itx.outputs 0 ≡ some receiver
    pub pays_to : receiver.address ≡ some address
    pub has_message : itx.msg_proto ≡ some m
    pub has_minimum : minimum (type_of m) ≡ some least
    pub found : find_contract state nano itx m address store ≡ ok c
    pub checked : IsChecked now itx m least address c

  -- A request that `CheckAndFetch` lets through has the contract that was found for it; it has paid
  -- the minimum of its type to the address of its first output, its transaction is not among the
  -- hashes of the contract, and the validator of its type returned the OK code.
  pub check_and_fetch-Accepted :
      {c : Contract}
      → check_and_fetch state wallet now nano itx store ≡ ok (Verdict.accept c)
      → Accepted c
  unfolding check_and_fetch
  check_and_fetch-Accepted h =
      let (m, e1, h1) = >>=-eq-ok (message_of itx) _ h in
      let (least, e2, h2) = >>=-eq-ok (or_err (minimum (type_of m)) Error.no_minimum) _ h1 in
      let (receiver, e3, h3) = >>=-eq-ok (index itx.outputs 0) _ h2 in
      let (address, e4, h4) = >>=-eq-ok (address_of receiver) _ h3 in
      let (found, checked) =
        continue_check-eq-accept wallet now itx m least address
          (find_contract state nano itx m address store) h4 in
      record {
        m = m;
        least = least;
        address = address;
        receiver = receiver;
        is_first = index-eq-ok itx.outputs 0 e3;
        pays_to = ground (arith, e4);
        has_message = ground arith;
        has_minimum = or_err-eq-ok (minimum (type_of m)) _ e2;
        found = found;
        checked = checked;
      }
