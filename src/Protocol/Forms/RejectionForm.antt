-- ===== src/Protocol/Forms/RejectionForm.antt =====
-- `RejectionForm` in `pkg/protocol/protocol_forms.go`, and that the message it builds fits its format.
use smart_contract.Prelude.{ℕ, refl, Bytes, List, [], ◌∷◌, arith}
use smart_contract.Protocol.Codes.{Code}
use smart_contract.Protocol.Responses.{Rejection}
use smart_contract.Protocol.Codec.Rejection.{rejection_format, rejection_codec}
use smart_contract.Protocol.Responses.{new_rejection}
use smart_contract.Protocol.Codec.Interface
use smart_contract.Protocol.Codec.Laws.{Word}
use smart_contract.Protocol.OpReturn.{codec}
use smart_contract.Protocol.Forms.{Assignment, padded, ensured, copied}
use smart_contract.Protocol.Forms.Laws.{IsText, first_byte-Word, fits-pad, Short, built}
use smart_contract.Protocol.Forms.Interface.{FormOf, plain_form}

pub record RejectionForm : Type 0 where
  pub version : ℕ
  pub timestamp : ℕ
  pub asset_type : Bytes
  pub asset_id : Bytes
  pub rejection_type : Bytes
  pub message : Bytes

-- The assignments of `BuildMessage`.
unfoldable pub rejection_form_steps : List (Assignment RejectionForm Rejection)
rejection_form_steps =
    copied (λ f m. record m { version = f.version })
    ∷ copied (λ f m. record m { timestamp = f.timestamp })
    ∷ padded 3 (λ f. f.asset_type) (λ m v. record m { asset_type = v })
    ∷ padded 32 (λ f. f.asset_id) (λ m v. record m { asset_id = v })
    ∷ ensured (λ f. f.rejection_type) (λ m v. record m { rejection_type = v })
    ∷ padded 169 (λ f. f.message) (λ m v. record m { message = v })
    ∷ []

-- The numbers and bytes are in the range of their types.
abbrev pub RejectionFormTyped : RejectionForm → Type 0
RejectionFormTyped f = Word 1 f.version × Word 8 f.timestamp × IsText f.rejection_type

rejection_form_steps-Fits :
    (f : RejectionForm)
    → RejectionFormTyped f
    → Short rejection_form_steps f
    → Interface.Fits rejection_format (built rejection_form_steps f new_rejection)
unfolding rejection_form_steps rejection_format
rejection_form_steps-Fits f (t0, t1, t2) (h0, (h1, (h2, (h3, tt)))) = (
  refl,
  (
    omega arith,
    (
      omega arith,
      (
        omega arith,
        (
          t0,
          (
            t1,
            (
              fits-pad f.asset_type 3 h0,
              (
                fits-pad f.asset_id 32 h1,
                (first_byte-Word f.rejection_type t2, (fits-pad f.message 169 h3, tt)),
              ),
            ),
          ),
        ),
      ),
    ),
  ),
)

unfoldable pub rejection_form : FormOf Code.m2 RejectionForm
unfolding rejection_form_steps rejection_codec plain_form codec rejection_form_steps-Fits
rejection_form =
    plain_form Code.m2 rejection_form_steps RejectionFormTyped rejection_form_steps-Fits
      (λ f. (refl, refl))
