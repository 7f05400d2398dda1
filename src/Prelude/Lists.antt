-- ===== src/Prelude/Lists.antt =====
-- Lists measured and indexed by native numbers, under the library's names.
use Prim.Native.Nat.{ℕ, zero, suc, ◌+◌}
use mathlib.Core.Path.{◌≡◌}
use mathlib.Core.List.{List, [], ◌∷◌, ◌++◌}
use mathlib.Core.Option.{Option, none, some}
use native.Mathlib.Omega.{arith}

module _ {ℓ} {A : Type ℓ} where
  abbrev pub length : List A → ℕ
  length [] = 0
  length (x ∷ xs) = suc (length xs)

  abbrev pub get_elem? : List A → ℕ → Option A
  get_elem? [] i = none
  get_elem? (x ∷ xs) zero = some x
  get_elem? (x ∷ xs) (suc i) = get_elem? xs i

  abbrev pub take : ℕ → List A → List A
  take zero xs = []
  take (suc n) [] = []
  take (suc n) (x ∷ xs) = x ∷ take n xs

  abbrev pub drop : ℕ → List A → List A
  drop zero xs = xs
  drop (suc n) [] = []
  drop (suc n) (x ∷ xs) = drop n xs

  abbrev pub All {κ} : (A → Type κ) → List A → Type κ
  All P [] = Unit
  All P (x ∷ xs) = P x × All P xs

  pub length-append : (xs ys : List A) → length (xs ++ ys) ≡ length xs + length ys
  length-append [] ys = omega arith
  length-append (x ∷ xs) ys = omega (arith, length-append xs ys)

  -- The shape of a list from one of its first elements.
  pub get_elem?-first :
      (xs : List A) {a : A} → get_elem? xs 0 ≡ some a → (ys : List A) × (xs ≡ a ∷ ys)
  get_elem?-first [] h = cc
  get_elem?-first (x ∷ xs) h = (xs, cc)

  pub get_elem?-second :
      (xs : List A) {a : A} → get_elem? xs 1 ≡ some a → (x : A) × (ys : List A) × (xs ≡ x ∷ a ∷ ys)
  get_elem?-second [] h = cc
  get_elem?-second (x ∷ []) h = cc
  get_elem?-second (x ∷ y ∷ ys) h = (x, ys, cc)
