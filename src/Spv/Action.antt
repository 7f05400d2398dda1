-- ===== src/Spv/Action.antt =====
-- What a method of the node does: it changes the node's world and returns, fails or panics. What it
-- changed before an error stays.
use smart_contract.Prelude.{Outcome, panic, err, ok, Error}

abbrev pub Action : Type 0 → Type 0 → Type 0
Action W A = W → W × Outcome A

module _ {W : Type 0} {A : Type 0} where
  abbrev pub done : A → Action W A
  done a w = (w, ok a)

  abbrev pub fail : Error → Action W A
  fail e w = (w, err e)

  -- A call that reads nothing of the world.
  abbrev pub lift : Outcome A → Action W A
  lift o w = (w, o)

module _ {W A B : Type 0} where
  unfoldable pub continue : W × Outcome A → (A → Action W B) → W × Outcome B
  continue (w, panic) rest = (w, panic)
  continue (w, err e) rest = (w, err e)
  continue (w, ok a) rest = rest a w

  infixl 5 ◌>>=◌
  abbrev pub ◌>>=◌ : Action W A → (A → Action W B) → Action W B
  (call >>= rest) w = continue (call w) rest

-- A call whose error is logged and then ignored.
unfoldable pub ignored : {W : Type 0} → W × Outcome (Unit {0}) → W × Outcome (Unit {0})
ignored (w, panic) = (w, panic)
ignored (w, err e) = (w, ok tt)
ignored (w, ok a) = (w, ok tt)

abbrev pub logged : {W : Type 0} → Action W (Unit {0}) → Action W (Unit {0})
logged call w = ignored (call w)
