-- ===== src/Prelude/Results.antt =====
-- What a Go call does: it returns a value, returns an error, or panics.
use Prim.Native.Nat.{ℕ}
use mathlib.Core.Path.{◌≡◌, refl, ap}
use mathlib.Core.Bool.{Bool, true, false}
use mathlib.Core.List.{List}
use mathlib.Core.Option.{Option, none, some}
use native.Mathlib.Omega.{arith}
use smart_contract.Prelude.Lists.{get_elem?}

-- The reasons that the modelled code returns, one for each `errors.New`, `fmt.Errorf` or named
-- error. `external` is an error that a call outside the repository returned, `rejected c` the
-- rejection code c that a validator returned.
pub data Error : Type 0 where
  wrong_type asset_not_found holding_not_found vote_not_found : Error
  missing_receivers insufficient_assets transfer_self unknown_enforcement : Error
  no_handler no_validator no_type_mapping no_minimum no_outputs key_not_found : Error
  contract_not_found contract_already_exists insufficient_payment : Error
  invalid_pk_script not_enough_value no_output_fee not_op_return : Error
  unknown_asset_type unknown_message length_exceeded field_length_exceeded not_implemented : Error
  storage_not_found block_not_found state_not_found : Error
  external : Error
  rejected : ℕ → Error

pub data Outcome {ℓ} (A : Type ℓ) : Type ℓ where
  panic : Outcome A
  err : Error → Outcome A
  ok : A → Outcome A

module _ {ℓ κ} {A : Type ℓ} {B : Type κ} where
  infixl 5 ◌>>=◌
  abbrev pub ◌>>=◌ : Outcome A → (A → Outcome B) → Outcome B
  panic >>= rest = panic
  err why >>= rest = err why
  ok a >>= rest = rest a

-- `if !b { return nil, e }`
abbrev pub require : Bool → Error → Outcome (Unit {0})
require false why = err why
require true why = ok tt

-- The rest of a function after such a test.
infixl 5 ◌>>◌
abbrev pub ◌>>◌ {ℓ} : {B : Type ℓ} → Outcome (Unit {0}) → Outcome B → Outcome B
test >> rest = test >>= λ passed. rest

module _ {ℓ} {A : Type ℓ} where
  -- `v, ok := m[k]; if !ok { return nil, e }`
  abbrev pub or_err : Option A → Error → Outcome A
  or_err none e = err e
  or_err (some a) e = ok a

  -- `m.(*T)` with one result, which panics for another type.
  abbrev pub or_panic : Option A → Outcome A
  or_panic none = panic
  or_panic (some a) = ok a

  -- `xs[i]`, which panics out of range.
  abbrev pub index : List A → ℕ → Outcome A
  index xs i = elim (get_elem? xs i) [ none ↦ panic | some a ↦ ok a ]

  pub ok-injective : {x y : A} → ok x ≡ ok y → x ≡ y
  ok-injective {x} h = ap (λ o. elim o [ ok a ↦ a | _ ↦ x ]) h

  -- Inversion of a successful bind, for proofs where the parts stay shut.
  pub >>=-eq-ok {κ} :
      {B : Type κ} (call : Outcome A) (rest : A → Outcome B) {v : B}
      → (call >>= rest) ≡ ok v
      → (got : A) × (call ≡ ok got) × (rest got ≡ ok v)
  >>=-eq-ok panic rest e = cc
  >>=-eq-ok (err why) rest e = cc
  >>=-eq-ok (ok got) rest e = (got, refl, e)

  pub or_err-eq-ok : (o : Option A) (e : Error) {a : A} → or_err o e ≡ ok a → o ≡ some a
  or_err-eq-ok none e h = cc
  or_err-eq-ok (some a) e h = cc

  pub index-eq-ok : (xs : List A) (i : ℕ) {a : A} → index xs i ≡ ok a → get_elem? xs i ≡ some a
  index-eq-ok xs i h = ground arith

pub require-eq-ok : (b : Bool) (e : Error) {u : Unit {0}} → require b e ≡ ok u → b ≡ true
require-eq-ok true e h = refl
require-eq-ok false e h = cc

-- Inversion of a guard that let the rest run.
pub >>-eq-ok {ℓ} :
    {B : Type ℓ} (b : Bool) (e : Error) (k : Outcome B) {x : B}
    → (require b e >> k) ≡ ok x
    → (b ≡ true) × (k ≡ ok x)
>>-eq-ok true e k h = (refl, h)
>>-eq-ok false e k h = cc
