-- ===== src/Protocol/Forms/ReconciliationForm.antt =====
-- `ReconciliationForm` in `pkg/protocol/protocol_forms.go`, and that the message it builds fits its
-- format.
use smart_contract.Prelude.{ℕ, refl, Bytes, List, [], ◌∷◌, arith}
use smart_contract.Protocol.Codes.{Code}
use smart_contract.Protocol.Records.{Reconciliation}
use smart_contract.Protocol.Codec.Reconciliation.{
  reconciliation_format, reconciliation_codec, new_reconciliation,
}
use smart_contract.Protocol.Codec.Interface
use smart_contract.Protocol.Codec.Laws.{Word}
use smart_contract.Protocol.OpReturn.{codec}
use smart_contract.Protocol.Forms.{Assignment, padded, copied}
use smart_contract.Protocol.Forms.Laws.{fits-pad, Short, built}
use smart_contract.Protocol.Forms.Interface.{FormOf, plain_form}

pub record ReconciliationForm : Type 0 where
  pub version : ℕ
  pub asset_type : Bytes
  pub asset_id : Bytes
  pub ref_txn_id : Bytes
  pub target_address_qty : ℕ
  pub timestamp : ℕ
  pub message : Bytes

-- The assignments of `BuildMessage`.
unfoldable pub reconciliation_form_steps : List (Assignment ReconciliationForm Reconciliation)
reconciliation_form_steps =
    copied (λ f m. record m { version = f.version })
    ∷ padded 3 (λ f. f.asset_type) (λ m v. record m { asset_type = v })
    ∷ padded 32 (λ f. f.asset_id) (λ m v. record m { asset_id = v })
    ∷ padded 32 (λ f. f.ref_txn_id) (λ m v. record m { ref_txn_id = v })
    ∷ copied (λ f m. record m { target_address_qty = f.target_address_qty })
    ∷ copied (λ f m. record m { timestamp = f.timestamp })
    ∷ padded 61 (λ f. f.message) (λ m v. record m { message = v })
    ∷ []

-- The numbers and bytes are in the range of their types.
abbrev pub ReconciliationFormTyped : ReconciliationForm → Type 0
ReconciliationFormTyped f = Word 1 f.version × Word 8 f.target_address_qty × Word 8 f.timestamp

reconciliation_form_steps-Fits :
    (f : ReconciliationForm)
    → ReconciliationFormTyped f
    → Short reconciliation_form_steps f
    → Interface.Fits reconciliation_format (built reconciliation_form_steps f new_reconciliation)
unfolding reconciliation_form_steps reconciliation_format
reconciliation_form_steps-Fits f (t0, t1, t2) (h0, (h1, (h2, (h3, tt)))) = (
  refl,
  (
    omega arith,
    (
      omega arith,
      (
        omega arith,
        (
          t0,
          (
            fits-pad f.asset_type 3 h0,
            (
              fits-pad f.asset_id 32 h1,
              (fits-pad f.ref_txn_id 32 h2, (t1, (t2, (fits-pad f.message 61 h3, tt)))),
            ),
          ),
        ),
      ),
    ),
  ),
)

unfoldable pub reconciliation_form : FormOf Code.e5 ReconciliationForm
unfolding reconciliation_form_steps reconciliation_codec plain_form codec
    reconciliation_form_steps-Fits
reconciliation_form =
    plain_form Code.e5 reconciliation_form_steps ReconciliationFormTyped
      reconciliation_form_steps-Fits (λ f. (refl, refl))
