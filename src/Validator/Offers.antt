-- ===== src/Validator/Offers.antt =====
-- What `CheckAndFetch` makes of a contract offer, and what a rejection costs.
use smart_contract.Prelude.{
  ℕ, ◌≤◌, ltb, bytes_key, if◌then◌else◌, some, List, [], ◌∷◌, ◌≡◌, get_elem?, Error, ok, err, ◌>>=◌,
  arith,
}
use smart_contract.Protocol.{Message, ContractOffer, limit_default, dust_limit}
use smart_contract.Protocol.RejectionCode
use smart_contract.Btcutil.{Btcutil}
use smart_contract.Wire.{Wire}
use smart_contract.TxBuilder.{TxOutput, Utxo, pay_to, for_address, utxos_value}
use smart_contract.State.{Contract, new_contract, known_tx, has_hash}
use smart_contract.Inspector.{Transaction}
use smart_contract.Wallet.{Wallet}
use smart_contract.Response.Service.{StateInterface}
use smart_contract.Validator.Service.{
  Verdict, create_contract, find_contract, reject, reject_verdict, judge, is_permitted,
  run_validator, check_contract, continue_check, check_and_fetch, build_rejection_from_code,
}

module _ {Addr MsgTx Key : Type 0} ⦃b : Btcutil Addr⦄ (wallet : Wallet Addr MsgTx Key)
    (itx : Transaction Addr MsgTx) (code : ℕ) {o : TxOutput Addr} {outs : List (TxOutput Addr)}
    {address sender : Addr} {inputs : List Addr} (receives : itx.outputs ≡ o ∷ outs)
    (reaches : o.address ≡ some address) (sends : itx.input_addrs ≡ sender ∷ inputs) where
  reject_verdict_lem :
      {utxos : List Utxo} {key : Key}
      → for_address itx.utxos address ≡ ok utxos
      → wallet.get (b.to_string address) ≡ ok key
      → reject_verdict wallet itx code ≡ (
          if ltb o.value limit_default then err Error.insufficient_payment else (do
            tx ←
                wallet.build_tx key utxos
                  (pay_to sender dust_limit ∷ [])
                  sender
                  (some (Message.rejection (build_rejection_from_code code)))
            ok (Verdict.reject_with tx)))
  unfolding reject_verdict reject
  reject_verdict_lem received keyed = ground (arith, receives, reaches, sends, received, keyed)

module _ {Addr MsgTx Key Store : Type 0} ⦃b : Btcutil Addr⦄ ⦃w : Wire MsgTx⦄
    (state : StateInterface Store) (wallet : Wallet Addr MsgTx Key) (now nano : ℕ)
    (itx : Transaction Addr MsgTx) (store : Store) (co : ContractOffer) {o : TxOutput Addr}
    {outs : List (TxOutput Addr)} {address issuer : Addr} {inputs : List Addr}
    (is_offer : itx.msg_proto ≡ some (Message.contract_offer co))
    (receives : itx.outputs ≡ o ∷ outs) (reaches : o.address ≡ some address)
    (sends : itx.input_addrs ≡ issuer ∷ inputs) where
  check_and_fetch-offer :
      check_and_fetch state wallet now nano itx store
      ≡ continue_check wallet now itx
          (Message.contract_offer co)
          limit_default
          address
          (find_contract state nano itx (Message.contract_offer co) address store)
  unfolding check_and_fetch
  check_and_fetch-offer = ground (arith, is_offer, receives, reaches)

  -- A contract offer to an address at which a contract is stored is not accepted, whoever sends it: the
  -- rejection with the code for a contract that exists goes to the first sender with the dust limit,
  -- paid from what the address received with the wallet's key for it; where the first output has less
  -- than the default limit, there is an error and no rejection.
  pub offer_to_contract :
      (c : Contract) {utxos : List Utxo} {key : Key}
      → state.read (b.encode_address address) store ≡ ok c
      → for_address itx.utxos address ≡ ok utxos
      → wallet.get (b.to_string address) ≡ ok key
      → check_and_fetch state wallet now nano itx store ≡ (
          if ltb o.value limit_default then err Error.insufficient_payment else (do
            tx ←
                wallet.build_tx key utxos (pay_to issuer dust_limit ∷ []) issuer (
                  some
                    (Message.rejection (build_rejection_from_code RejectionCode.contract_exists)))
            ok (Verdict.reject_with tx)))
  unfolding find_contract create_contract continue_check
  offer_to_contract c stored received keyed = ground (
    arith,
    check_and_fetch-offer,
    stored,
    sends,
    reject_verdict_lem wallet itx RejectionCode.contract_exists receives reaches sends received
        keyed,
  )

  -- A contract offer to an address without a contract, which pays the default limit, is accepted with
  -- the contract of the offer: its issuer is the first sender and its operator the second, if any.
  pub offer_accepted :
      {tx : MsgTx} {utxos : List Utxo}
      → state.read (b.encode_address address) store ≡ err Error.contract_not_found
      → itx.msg_tx ≡ some tx
      → for_address itx.utxos address ≡ ok utxos
      → limit_default ≤ utxos_value utxos
      → check_and_fetch state wallet now nano itx store
        ≡ ok (Verdict.accept (new_contract nano address issuer (get_elem? itx.input_addrs 1) co))
  unfolding find_contract create_contract continue_check check_contract is_permitted run_validator
      judge new_contract known_tx has_hash
  offer_accepted fresh has_tx received paid =
      ground (arith, check_and_fetch-offer, fresh, sends, has_tx, received)
