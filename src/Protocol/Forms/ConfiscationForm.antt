-- ===== src/Protocol/Forms/ConfiscationForm.antt =====
-- `ConfiscationForm` in `pkg/protocol/protocol_forms.go`, and that the message it builds fits its
-- format.
use smart_contract.Prelude.{ℕ, refl, Bytes, List, [], ◌∷◌, arith}
use smart_contract.Protocol.Codes.{Code}
use smart_contract.Protocol.Responses.{Confiscation}
use smart_contract.Protocol.Codec.Confiscation.{confiscation_format, confiscation_codec}
use smart_contract.Protocol.Responses.{new_confiscation}
use smart_contract.Protocol.Codec.Interface
use smart_contract.Protocol.Codec.Laws.{Word}
use smart_contract.Protocol.OpReturn.{codec}
use smart_contract.Protocol.Forms.{Assignment, padded, copied}
use smart_contract.Protocol.Forms.Laws.{fits-pad, Short, built}
use smart_contract.Protocol.Forms.Interface.{FormOf, plain_form}

pub record ConfiscationForm : Type 0 where
  pub version : ℕ
  pub asset_type : Bytes
  pub asset_id : Bytes
  pub timestamp : ℕ
  pub targets_qty : ℕ
  pub deposits_qty : ℕ
  pub message : Bytes

-- The assignments of `BuildMessage`.
unfoldable pub confiscation_form_steps : List (Assignment ConfiscationForm Confiscation)
confiscation_form_steps =
    copied (λ f m. record m { version = f.version })
    ∷ padded 3 (λ f. f.asset_type) (λ m v. record m { asset_type = v })
    ∷ padded 32 (λ f. f.asset_id) (λ m v. record m { asset_id = v })
    ∷ copied (λ f m. record m { timestamp = f.timestamp })
    ∷ copied (λ f m. record m { targets_qty = f.targets_qty })
    ∷ copied (λ f m. record m { deposits_qty = f.deposits_qty })
    ∷ padded 61 (λ f. f.message) (λ m v. record m { message = v })
    ∷ []

-- The numbers and bytes are in the range of their types.
abbrev pub ConfiscationFormTyped : ConfiscationForm → Type 0
ConfiscationFormTyped f =
    Word 1 f.version × Word 8 f.timestamp × Word 8 f.targets_qty × Word 8 f.deposits_qty

confiscation_form_steps-Fits :
    (f : ConfiscationForm)
    → ConfiscationFormTyped f
    → Short confiscation_form_steps f
    → Interface.Fits confiscation_format (built confiscation_form_steps f new_confiscation)
unfolding confiscation_form_steps confiscation_format
confiscation_form_steps-Fits f (t0, t1, t2, t3) (h0, (h1, (h2, tt))) = (
  refl,
  (
    omega arith,
    (
      omega arith,
      (
        omega arith,
        (
          t0,
          (
            fits-pad f.asset_type 3 h0,
            (fits-pad f.asset_id 32 h1, (t1, (t2, (t3, (fits-pad f.message 61 h2, tt))))),
          ),
        ),
      ),
    ),
  ),
)

unfoldable pub confiscation_form : FormOf Code.e4 ConfiscationForm
unfolding confiscation_form_steps confiscation_codec plain_form codec confiscation_form_steps-Fits
confiscation_form =
    plain_form Code.e4 confiscation_form_steps ConfiscationFormTyped confiscation_form_steps-Fits
      (λ f. (refl, refl))
