-- ===== src/TxBuilder/Change.antt =====
-- What a built transaction spends and pays.
use smart_contract.Prelude.{
  ok-injective, ℕ, ◌+◌, ◌-◌, ◌%◌, ◌^◌, ◌≤◌, ◌<◌, ltb, ◌==◌, Bytes, bytes_eq, if-cases, Bool-cases,
  List, [], ◌∷◌, ◌++◌, ◌≡◌, refl, subst, ◌⊎◌, inl, inr, ◌∙◌, ap, ok, >>=-eq-ok, arith,
}
use smart_contract.Btcutil.{Btcutil}
use smart_contract.TxBuilder.Output.{TxOutput, pay_to, address_of}
use smart_contract.TxBuilder.Plan.{
  Selection, select, value_of, total_fee, add_change, with_change, plan, minus, dust_minimum_output,
  input_fee_p2pkh, base_tx_fee, output_fee_p2pkh,
}

module _ {Addr : Type 0} where
  -- The value of a list of outputs, as a number without bound.
  unfoldable pub sum : List (TxOutput Addr) → ℕ
  sum [] = 0
  sum (o ∷ outs) = o.value + sum outs

  sum-append : (outs others : List (TxOutput Addr)) → sum (outs ++ others) ≡ sum outs + sum others
  unfolding sum
  sum-append [] others = omega arith
  sum-append (o ∷ outs) others = omega (arith, sum-append outs others)

  value_of-sum :
      (total : ℕ) (outs : List (TxOutput Addr))
      → total + sum outs < 2 ^ 64
      → value_of total outs ≡ total + sum outs
  unfolding sum value_of
  value_of-sum total [] fits = omega arith
  value_of-sum total (o ∷ outs) fits =
      ground (arith, value_of-sum ((total + o.value) % 2 ^ 64) outs)

  -- A selection is the front of a list, and its value is exact.
  abbrev pub IsFront : ℕ → List (TxOutput Addr) → Selection Addr → Type 0
  IsFront total spendable s =
      (rest : List (TxOutput Addr)) × (spendable ≡ s.used ++ rest) × (s.total ≡ total + sum s.used)

  -- What is selected is a front, where the values add up below 2 ^ 64.
  select-eq-ok :
      (min_input total : ℕ) (spendable : List (TxOutput Addr)) {s : Selection Addr}
      → select min_input total spendable ≡ ok s
      → total + sum spendable < 2 ^ 64
      → IsFront total spendable s
  unfolding select sum
  select-eq-ok min_input total [] h fits = cc
  select-eq-ok min_input total (o ∷ spendable) h fits =
      let more = (total + o.value) % 2 ^ 64 in
      elim (if-cases (ltb min_input more) _ _ h) [
        | inl (enough, e) ↦
            subst (IsFront total (o ∷ spendable)) (ok-injective e) (spendable, refl, omega arith)
        | inr (short, e) ↦
            let (s', e1, e2) =
              >>=-eq-ok (select ((min_input + input_fee_p2pkh) % 2 ^ 64) more spendable) _ e in
            let (rest, split, exact) =
              select-eq-ok ((min_input + input_fee_p2pkh) % 2 ^ 64) more spendable e1
                (omega arith) in
            subst (IsFront total (o ∷ spendable)) (ok-injective e2)
              (rest, ap (λ xs. o ∷ xs) split, omega (arith, exact))
      ]

minus-minus : (t fee v : ℕ) → t < 2 ^ 64 → fee + v ≤ t → minus (minus t fee) v ≡ t - fee - v
unfolding minus
minus-minus t fee v fits enough = ground arith

module _ {Addr : Type 0} ⦃b : Btcutil Addr⦄ where
  -- The change is added to one output, or the outputs are as they were.
  add_change-eq-ok :
      (change_address : Bytes) (change : ℕ) (outs : List (TxOutput Addr))
      {r : List (TxOutput Addr) × ℕ}
      → add_change change_address change outs ≡ ok r
      → 0 < change
      → sum outs + change < 2 ^ 64
      → ((0 < r.1) × (sum r.0 ≡ sum outs + change)) ⊎ ((r.1 ≡ 0) × (sum r.0 ≡ sum outs))
  unfolding add_change sum
  add_change-eq-ok change_address change [] h some_change fits = inr (ground arith, ground arith)
  add_change-eq-ok change_address change (o ∷ outs) {r} h some_change fits =
      let (a, e, h1) = >>=-eq-ok (address_of o) _ h in
      elim (if-cases (bytes_eq (b.encode_address a) change_address) _ _ h1) [
        | inl (here, e1) ↦ inl (ground arith, ground arith)
        | inr (elsewhere, e1) ↦
            let (r', e2, e3) = >>=-eq-ok (add_change change_address change outs) _ e1 in
            elim (add_change-eq-ok change_address change outs e2 some_change (omega arith)) [
              | inl (found, exact) ↦ inl (ground arith, ground arith)
              | inr (missing, exact) ↦ inr (ground arith, ground arith)
            ]
      ]

  -- The change is paid in full, or it is below the dust limit and not paid at all.
  with_change-eq-ok :
      (change_address : Addr) (change : ℕ) (outs : List (TxOutput Addr))
      {outs' : List (TxOutput Addr)}
      → with_change change_address change outs ≡ ok outs'
      → sum outs + change < 2 ^ 64
      → (sum outs' ≡ sum outs + change) ⊎ ((sum outs' ≡ sum outs) × (change < dust_minimum_output))
  unfolding with_change sum
  with_change-eq-ok change_address change outs {outs'} h fits =
      elim (if-cases (change == 0) _ _ h) [
        | inl (zero_change, e) ↦ inl (ground arith)
        | inr (some_change, e) ↦
            let (r, e1, e2) =
              >>=-eq-ok (add_change (b.encode_address change_address) change outs) _ e in
            elim (add_change-eq-ok (b.encode_address change_address) change outs e1 (ground arith)
              fits) [
                | inl (found, exact) ↦ inl (ground arith)
                | inr (missing, exact) ↦ elim (Bool-cases (ltb change dust_minimum_output)) [
                  | inl dust ↦ inr (ground (arith, e2, missing, dust, exact), ground (arith, dust))
                  | inr worth ↦ inl (
                      ground (
                        arith,
                        e2,
                        missing,
                        worth,
                        exact,
                        sum-append r.0 (pay_to change_address change ∷ []),
                      ))
                ]
              ]
      ]

  module _ (outputs spendable : List (TxOutput Addr)) (op_return : TxOutput Addr) where
    -- What is written before the change is known.
    abbrev pub all_outputs : List (TxOutput Addr)
    all_outputs = outputs ++ op_return ∷ []

    -- What is spent is a front of what may be, and is what is paid and the fee, or less than the dust
    -- limit more, if it covers the outputs and the fee.
    abbrev IsBalanced : List (TxOutput Addr) × List (TxOutput Addr) → Type 0
    IsBalanced p =
        total_fee p.0 all_outputs + sum all_outputs ≤ sum p.0
        → ((rest : List (TxOutput Addr)) × (spendable ≡ p.0 ++ rest))
          × (sum p.1 + total_fee p.0 all_outputs ≤ sum p.0)
          × (sum p.0 < sum p.1 + total_fee p.0 all_outputs + dust_minimum_output)

    planned-IsBalanced :
        (change_address : Addr) (s : Selection Addr) {outs : List (TxOutput Addr)}
        → IsFront 0 spendable s
        → with_change change_address
            (minus (minus s.total (total_fee s.used all_outputs)) (value_of 0 all_outputs))
            outputs
          ≡ ok outs
        → sum spendable < 2 ^ 64
        → IsBalanced (s.used, outs ++ op_return ∷ [])
    unfolding sum
    planned-IsBalanced change_address s {outs} (rest, split, exact) h fits covers =
        let fee = total_fee s.used all_outputs in
        let whole = sum-append s.used rest in
        let written = sum-append outputs (op_return ∷ []) in
        let bound : sum s.used < 2 ^ 64 = ground (arith, split, whole, fits) in
        let value = value_of-sum 0 all_outputs (omega (arith, bound, covers)) in
        let change : minus (minus s.total fee) (value_of 0 all_outputs)
            ≡ sum s.used - fee - sum all_outputs =
          rw (exact, value)
            (minus-minus (0 + sum s.used) fee (0 + sum all_outputs) (omega arith) (omega arith)
              ∙ omega arith) in
        let paid = sum-append outs (op_return ∷ []) in
        elim (with_change-eq-ok change_address (sum s.used - fee - sum all_outputs) outputs
          (rw change at h) (omega (arith, written, covers, bound))) [
            | inl full ↦ (
              (rest, split),
              omega (arith, full, paid, written, covers),
              omega (arith, full, paid, written, covers),
            )
            | inr (none_paid, dust) ↦ (
              (rest, split),
              omega (arith, none_paid, paid, written, covers),
              omega (arith, none_paid, dust, paid, written, covers),
            )
          ]

    plan-IsBalanced :
        (change_address : Addr) {p : List (TxOutput Addr) × List (TxOutput Addr)}
        → plan outputs spendable change_address op_return ≡ ok p
        → sum spendable < 2 ^ 64
        → IsBalanced p
    unfolding plan
    plan-IsBalanced change_address h fits =
        let least = base_tx_fee + input_fee_p2pkh + output_fee_p2pkh + dust_minimum_output in
        let (s, e1, h1) = >>=-eq-ok (select least 0 spendable) _ h in
        let (outs, e2, h2) =
          >>=-eq-ok
            (with_change change_address
              (minus (minus s.total (total_fee s.used all_outputs)) (value_of 0 all_outputs))
              outputs)
            _ h1 in
        subst IsBalanced (ok-injective h2) (
          planned-IsBalanced change_address s
            (select-eq-ok least 0 spendable e1 (omega (arith, fits))) e2 fits)

    -- A transaction that is planned, where the values of the outputs that it may spend add up below 2
    -- ^ 64 and those that are selected cover the fee and the outputs: it spends a front of the outputs
    -- that it may spend, and what is spent is what is paid and the fee, or less than the dust limit
    -- more.
    pub plan-balanced :
        (change_address : Addr) {used outs : List (TxOutput Addr)}
        → plan outputs spendable change_address op_return ≡ ok (used, outs)
        → sum spendable < 2 ^ 64
        → total_fee used all_outputs + sum all_outputs ≤ sum used
        → ((rest : List (TxOutput Addr)) × (spendable ≡ used ++ rest))
          × (sum outs + total_fee used all_outputs ≤ sum used)
          × (sum used < sum outs + total_fee used all_outputs + dust_minimum_output)
    plan-balanced change_address h fits covers = plan-IsBalanced change_address h fits covers
