-- ===== src/Tests/Building.antt =====
-- The plan of a transaction at concrete inputs.
use smart_contract.Prelude.{
  ◌+◌, ◌≤◌, ◌<◌, ◌^◌, Bytes, bytes_eq, List, [], ◌∷◌, ◌++◌, ◌≡◌, refl, ok, arith,
}
use smart_contract.TxBuilder.{OutputType, TxOutput, pay_to}
use smart_contract.TxBuilder.Plan.{
  plan, select, app_output_fee, value_of, fee_of, total_fee, minus, add_change, with_change,
  dust_minimum_output,
}
use smart_contract.TxBuilder.Change.{sum, all_outputs, plan-balanced}
use smart_contract.Tests.Base.{plain, alice, bob}

-- 5000 are spent, Bob gets 546, the fee is 546, and Alice gets the change.
abbrev message : TxOutput Bytes
message = record (pay_to [] 0) { type = OutputType.op_return }

abbrev spendable : List (TxOutput Bytes)
spendable = pay_to alice 5000 ∷ pay_to alice 7000 ∷ []

abbrev used : List (TxOutput Bytes)
used = pay_to alice 5000 ∷ []

abbrev outputs : List (TxOutput Bytes)
outputs = pay_to bob 546 ∷ []

abbrev written : List (TxOutput Bytes)
written = pay_to bob 546 ∷ pay_to alice 3908 ∷ message ∷ []

planned : plan outputs spendable alice message ≡ ok (used, written)
unfolding plan select app_output_fee value_of fee_of total_fee minus add_change with_change bytes_eq
planned = refl

fits : sum spendable < 2 ^ 64
unfolding sum
fits = omega arith

covers :
    total_fee used (all_outputs outputs spendable message)
      + sum (all_outputs outputs spendable message)
    ≤ sum used
unfolding sum total_fee fee_of app_output_fee
covers = omega arith

plan-balanced_example :
    ((rest : List (TxOutput Bytes)) × (spendable ≡ used ++ rest))
    × (sum written + total_fee used (all_outputs outputs spendable message) ≤ sum used)
    × (sum used
        < sum written
          + total_fee used (all_outputs outputs spendable message)
          + dust_minimum_output)
plan-balanced_example = plan-balanced outputs spendable message alice planned fits covers
