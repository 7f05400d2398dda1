-- ===== src/Validator/Service.antt =====
-- `validator_service.go`: the checks before a request is processed.
use smart_contract.Prelude.{
  ℕ, ltb, Bool, true, false, ◌||◌, if◌then◌else◌, Option, none, some, List, [], ◌∷◌, get_elem?,
  Outcome, Error, ok, err, panic, ◌>>=◌, index, or_err,
}
use smart_contract.Protocol.{
  Code, Message, Rejection, type_of, minimum, limit_default, dust_limit, rejection_text,
  new_rejection,
}
use smart_contract.Protocol.RejectionCode
use smart_contract.Btcutil.{Btcutil}
use smart_contract.Wire.{Wire}
use smart_contract.TxBuilder.{pay_to, address_of, for_address, utxos_value}
use smart_contract.State.{Contract, new_contract, is_issuer, is_operator, known_tx}
use smart_contract.Inspector.{Transaction}
use smart_contract.Wallet.{Wallet}
use smart_contract.Request.Defs.{as_contract_offer}
use smart_contract.Request.Service.{message_of, tx_of}
use smart_contract.Response.Service.{StateInterface}
use smart_contract.Validator.Transfer.{validate_send, validate_exchange, validate_order}
use smart_contract.Validator.Formation.{
  validate_asset_definition, validate_asset_modification, validate_contract_amendment,
}

abbrev pub build_rejection_from_code : ℕ → Rejection
build_rejection_from_code code = record new_rejection {
  rejection_type = code;
  message = rejection_text code;
}

-- What `CheckAndFetch` returns with no error: a rejection to send, a contract, or neither.
pub data Verdict (MsgTx : Type 0) : Type 0 where
  reject_with : MsgTx → Verdict MsgTx
  accept : Contract → Verdict MsgTx
  ignore : Verdict MsgTx

abbrev pub is_contract_offer : Code → Bool
is_contract_offer Code.c1 = true
is_contract_offer _ = false

-- A nil map of assets or votes is replaced by an empty one.
abbrev pub made {ℓ} : {A : Type ℓ} → Option (List A) → Option (List A)
made none = some []
made (some d) = some d

abbrev pub with_maps : Contract → Contract
with_maps c = record c { assets = made c.assets; votes = made c.votes }

module _ {Addr MsgTx Store : Type 0} ⦃b : Btcutil Addr⦄ (state : StateInterface Store) where
  -- The branch of a contract offer in `findContract`, on what the store gave.
  unfoldable pub create_contract :
      ℕ → Transaction Addr MsgTx → Addr → Addr → Message → Outcome Contract → Outcome Contract
  create_contract nano itx address issuer m (ok c) = err Error.contract_already_exists
  create_contract nano itx address issuer m (err Error.contract_not_found) =
      elim (as_contract_offer m) [
        | none ↦ panic
        | some cof ↦ ok (new_contract nano address issuer (get_elem? itx.input_addrs 1) cof)
      ]
  create_contract nano itx address issuer m (err e) = err e
  create_contract nano itx address issuer m panic = panic

  unfoldable pub find_contract :
      ℕ → Transaction Addr MsgTx → Message → Addr → Store → Outcome Contract
  find_contract nano itx m address store =
      let found = state.read (b.encode_address address) store in
      if is_contract_offer (type_of m)
      then (do issuer ← index itx.input_addrs 0; create_contract nano itx address issuer m found)
      else (do c ← found; ok (with_maps c))

module _ {Addr MsgTx : Type 0} ⦃b : Btcutil Addr⦄ where
  unfoldable pub is_permitted : Transaction Addr MsgTx → Message → Contract → Outcome Bool
  is_permitted itx m c = do
    sender ← index itx.input_addrs 0
    ok (
        if is_contract_offer (type_of m)
        then true
        else if is_issuer c (b.to_string sender) || is_operator c (b.to_string sender)
        then true
        else true)

  -- `s.validators[msg.Type()]` and its call.
  unfoldable pub run_validator :
      ℕ → Transaction Addr MsgTx → Contract → Message → Outcome (Unit {0})
  run_validator now itx c (Message.contract_offer m) = ok tt
  run_validator now itx c (Message.contract_amendment m) =
      validate_contract_amendment c (Message.contract_amendment m)
  run_validator now itx c (Message.asset_definition m) =
      validate_asset_definition c (Message.asset_definition m)
  run_validator now itx c (Message.asset_modification m) =
      validate_asset_modification c (Message.asset_modification m)
  run_validator now itx c (Message.send m) = validate_send now itx c (Message.send m)
  run_validator now itx c (Message.exchange m) = validate_exchange now itx c (Message.exchange m)
  run_validator now itx c (Message.order m) = validate_order c (Message.order m)
  run_validator now itx c _ = err Error.no_validator

module _ {Addr MsgTx Key : Type 0} ⦃b : Btcutil Addr⦄ (wallet : Wallet Addr MsgTx Key) where
  unfoldable pub reject : Transaction Addr MsgTx → ℕ → Outcome MsgTx
  reject itx code = do
    sender ← index itx.input_addrs 0
    receiver ← index itx.outputs 0
    if ltb receiver.value limit_default then err Error.insufficient_payment else do
      address ← address_of receiver
      utxos ← for_address itx.utxos address
      key ← wallet.get (b.to_string address)
      wallet.build_tx key utxos (pay_to sender dust_limit ∷ []) sender
          (some (Message.rejection (build_rejection_from_code code)))

  -- A rejection as the verdict.
  unfoldable pub reject_verdict : Transaction Addr MsgTx → ℕ → Outcome (Verdict MsgTx)
  reject_verdict itx code = do tx ← reject itx code; ok (Verdict.reject_with tx)

  -- What follows the custom validator.
  unfoldable pub judge :
      Transaction Addr MsgTx → Contract → Outcome (Unit {0}) → Outcome (Verdict MsgTx)
  judge itx c (ok _) = ok (Verdict.accept c)
  judge itx c (err (Error.rejected code)) = reject_verdict itx code
  judge itx c (err e) = err e
  judge itx c panic = panic

module _ {Addr MsgTx Key : Type 0} ⦃b : Btcutil Addr⦄ ⦃w : Wire MsgTx⦄ where
  -- The checks on a contract that was found, in the order of the source.
  unfoldable pub check_contract :
      Wallet Addr MsgTx Key
      → ℕ
      → Transaction Addr MsgTx
      → Message
      → ℕ
      → Addr
      → Contract
      → Outcome (Verdict MsgTx)
  check_contract wallet now itx m least address c = do
    utxos ← for_address itx.utxos address
    if ltb (utxos_value utxos) least
        then reject_verdict wallet itx RejectionCode.insufficient_value
        else (do
          tx ← tx_of itx
          if known_tx c (w.tx_hash_string tx) then ok Verdict.ignore else (do
            permitted ← is_permitted itx m c
            if permitted
                then judge wallet itx c (run_validator now itx c m)
                else reject_verdict wallet itx RejectionCode.issuer_address))

  -- What follows `findContract`.
  unfoldable pub continue_check :
      Wallet Addr MsgTx Key
      → ℕ
      → Transaction Addr MsgTx
      → Message
      → ℕ
      → Addr
      → Outcome Contract
      → Outcome (Verdict MsgTx)
  continue_check wallet now itx m least address (ok c) =
      check_contract wallet now itx m least address c
  continue_check wallet now itx m least address (err Error.contract_already_exists) =
      reject_verdict wallet itx RejectionCode.contract_exists
  continue_check wallet now itx m least address (err e) = err e
  continue_check wallet now itx m least address panic = panic

module _ {Addr MsgTx Key Store : Type 0} ⦃b : Btcutil Addr⦄ ⦃w : Wire MsgTx⦄ where
  -- `CheckAndFetch`. Every code has an entry in `TypeMapping`.
  unfoldable pub check_and_fetch :
      StateInterface Store
      → Wallet Addr MsgTx Key
      → ℕ
      → ℕ
      → Transaction Addr MsgTx
      → Store
      → Outcome (Verdict MsgTx)
  check_and_fetch state wallet now nano itx store = do
    m ← message_of itx
    least ← or_err (minimum (type_of m)) Error.no_minimum
    receiver ← index itx.outputs 0
    address ← address_of receiver
    continue_check wallet now itx m least address (find_contract state nano itx m address store)
