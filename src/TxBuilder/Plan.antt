-- ===== src/TxBuilder/Plan.antt =====
-- `build.go`: which outputs a transaction spends, what fee it pays, and where the change goes, up to
-- the call of `Create`, which writes the scripts and signs.
use smart_contract.Prelude.{
  ℕ, ◌+◌, ◌-◌, ◌*◌, ◌%◌, ◌^◌, ltb, ◌==◌, ◌&&◌, not, Bytes, bytes_eq, if◌then◌else◌, List, [], ◌∷◌,
  ◌++◌, length, Outcome, Error, ok, err, ◌>>=◌,
}
use smart_contract.Btcutil.{Btcutil}
use smart_contract.TxBuilder.Output.{OutputType, TxOutput, pay_to, address_of}

abbrev pub output_fee_p2pkh : ℕ
output_fee_p2pkh = 34

abbrev pub input_fee_p2pkh : ℕ
input_fee_p2pkh = 148

abbrev pub base_tx_fee : ℕ
base_tx_fee = 10

abbrev pub dust_minimum_output : ℕ
dust_minimum_output = 546

-- The difference of two `uint64`.
unfoldable pub minus : ℕ → ℕ → ℕ
minus a b = if ltb a b then a + 2 ^ 64 - b else a - b

-- What a transaction spends, and its value.
pub record Selection (Addr : Type 0) : Type 0 where
  pub used : List (TxOutput Addr)
  pub total : ℕ

module _ {Addr : Type 0} where
  -- The loop that takes outputs until their value exceeds what the inputs cost.
  unfoldable pub select : ℕ → ℕ → List (TxOutput Addr) → Outcome (Selection Addr)
  select min_input total [] = err Error.not_enough_value
  select min_input total (o ∷ spendable) =
      let more = (total + o.value) % 2 ^ 64 in
      let rest = select ((min_input + input_fee_p2pkh) % 2 ^ 64) more spendable in
      if ltb min_input more
      then ok (record { used = o ∷ []; total = more })
      else (do s ← rest; ok (record s { used = o ∷ (let u = s in u.used) }))

  -- `getAppOutputFee`
  unfoldable pub app_output_fee : TxOutput Addr → ℕ
  app_output_fee o = elim o.type [
    | OutputType.p2pk ↦ output_fee_p2pkh
    | OutputType.op_return ↦ length o.payload + 15
  ]

  -- The loop over the outputs: their value and the fee for them, in `uint64`.
  unfoldable pub value_of : ℕ → List (TxOutput Addr) → ℕ
  value_of total [] = total
  value_of total (o ∷ outs) = value_of ((total + o.value) % 2 ^ 64) outs

  unfoldable pub fee_of : ℕ → List (TxOutput Addr) → ℕ
  fee_of fee [] = fee
  fee_of fee (o ∷ outs) = fee_of ((fee + app_output_fee o) % 2 ^ 64) outs

  -- The fee for the inputs, the change and all outputs, at least the dust limit.
  unfoldable pub total_fee : List (TxOutput Addr) → List (TxOutput Addr) → ℕ
  total_fee used outs =
      let fee = fee_of (base_tx_fee + length used * input_fee_p2pkh + output_fee_p2pkh) outs in
      if ltb fee dust_minimum_output then dust_minimum_output else fee

module _ {Addr : Type 0} ⦃b : Btcutil Addr⦄ where
  -- The outputs with the change added to the first that pays to the change address, and the new value
  -- of that output, 0 if there is none.
  unfoldable pub add_change : Bytes → ℕ → List (TxOutput Addr) → Outcome (List (TxOutput Addr) × ℕ)
  add_change change_address change [] = ok ([], 0)
  add_change change_address change (o ∷ outs) =
      let later = add_change change_address change outs in
      do
        a ← address_of o
        if bytes_eq (b.encode_address a) change_address
            then (let v = (o.value + change) % 2 ^ 64 in ok (record o { value = v } ∷ outs, v))
            else (do r ← later; ok (o ∷ r.0, r.1))

  -- The outputs with their change; change below the dust limit has no output of its own.
  unfoldable pub with_change : Addr → ℕ → List (TxOutput Addr) → Outcome (List (TxOutput Addr))
  with_change change_address change outs = if change == 0 then ok outs else do
    r ← add_change (b.encode_address change_address) change outs
    ok (
        if r.1 == 0 && not (ltb change dust_minimum_output)
        then r.0 ++ pay_to change_address change ∷ []
        else r.0)

  -- `buildWithTxOuts` up to `Create`: the outputs to spend, and those to write. The call that reads
  -- the change address back from its encoding is taken to succeed with that address.
  unfoldable pub plan :
      List (TxOutput Addr)
      → List (TxOutput Addr)
      → Addr
      → TxOutput Addr
      → Outcome (List (TxOutput Addr) × List (TxOutput Addr))
  plan outputs spendable change_address op_return = do
    s ← select (base_tx_fee + input_fee_p2pkh + output_fee_p2pkh + dust_minimum_output) 0 spendable
    let all_outputs = outputs ++ op_return ∷ []
    let fee = total_fee s.used all_outputs
    let change = minus (minus s.total fee) (value_of 0 all_outputs)
    outs ← with_change change_address change outputs
    ok (s.used, outs ++ op_return ∷ [])
