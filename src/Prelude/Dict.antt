-- ===== src/Prelude/Dict.antt =====
-- Go's maps. A map variable is nil or made; a nil map reads as empty and panics when written.
use Prim.Native.Nat.{ℕ}
use mathlib.Core.Path.{◌≡◌, refl}
use mathlib.Core.List.{List, [], ◌∷◌}
use mathlib.Core.Option.{Option, none, some}
use native.Mathlib.Omega.{arith}
use smart_contract.Prelude.Tests.{if◌then◌else◌}
use smart_contract.Prelude.Lists.{length}
use smart_contract.Prelude.Text.{MapKey, ◌=?◌}
use smart_contract.Prelude.Results.{Outcome, ok, panic}

abbrev pub Dict {ℓ} : Type ℓ → Type ℓ → Type ℓ
Dict K V = List (K × V)

-- `none` is the nil map.
abbrev pub GoMap {ℓ} : Type ℓ → Type ℓ → Type ℓ
GoMap K V = Option (Dict K V)

module _ {ℓ} {K V : Type ℓ} ⦃key : MapKey K⦄ where
  unfoldable pub lookup : K → Dict K V → Option V
  lookup k [] = none
  lookup k ((j, v) ∷ d) = if k =? j then some v else lookup k d

  unfoldable pub insert : K → V → Dict K V → Dict K V
  insert k v [] = (k, v) ∷ []
  insert k v ((j, w) ∷ d) = if k =? j then (j, v) ∷ d else (j, w) ∷ insert k v d

  unfoldable pub erase : K → Dict K V → Dict K V
  erase k [] = []
  erase k ((j, v) ∷ d) = if k =? j then erase k d else (j, v) ∷ erase k d

  -- `m[k]`
  abbrev pub get : K → GoMap K V → Option V
  get k none = none
  get k (some d) = lookup k d

  -- `m[k] = v`
  abbrev pub put : K → V → GoMap K V → Outcome (GoMap K V)
  put k v none = panic
  put k v (some d) = ok (some (insert k v d))

  -- A map that has a key is made.
  pub get-eq-some :
      (k : K) (m : GoMap K V) {v : V}
      → get k m ≡ some v
      → (d : Dict K V) × (m ≡ some d) × (lookup k d ≡ some v)
  get-eq-some k none h = cc
  get-eq-some k (some d) h = (d, refl, h)

  pub lookup-insert :
      (j k : K) (v : V) (d : Dict K V)
      → lookup j (insert k v d) ≡ (if j =? k then some v else lookup j d)
  unfolding lookup insert
  lookup-insert j k v [] = refl
  lookup-insert j k v ((i, w) ∷ d) =
      ground (arith, key.same_iff j k, key.same_iff k i, key.same_iff j i, lookup-insert j k v d)

  pub lookup-erase :
      (j k : K) (d : Dict K V) → lookup j (erase k d) ≡ (if j =? k then none else lookup j d)
  unfolding lookup erase
  lookup-erase j k [] = ground arith
  lookup-erase j k ((i, w) ∷ d) =
      ground (arith, key.same_iff j k, key.same_iff k i, key.same_iff j i, lookup-erase j k d)

-- `len(m)`
abbrev pub size {ℓ} : {K V : Type ℓ} → GoMap K V → ℕ
size none = 0
size (some d) = length d
