-- ===== src/Protocol/Forms/ThawForm.antt =====
-- `ThawForm` in `pkg/protocol/protocol_forms.go`, and that the message it builds fits its format.
use smart_contract.Prelude.{ℕ, refl, Bytes, List, [], ◌∷◌, arith}
use smart_contract.Protocol.Codes.{Code}
use smart_contract.Protocol.Responses.{Thaw}
use smart_contract.Protocol.Codec.Thaw.{thaw_format, thaw_codec}
use smart_contract.Protocol.Responses.{new_thaw}
use smart_contract.Protocol.Codec.Interface
use smart_contract.Protocol.Codec.Laws.{Word}
use smart_contract.Protocol.OpReturn.{codec}
use smart_contract.Protocol.Forms.{Assignment, padded, copied}
use smart_contract.Protocol.Forms.Laws.{fits-pad, Short, built}
use smart_contract.Protocol.Forms.Interface.{FormOf, plain_form}

pub record ThawForm : Type 0 where
  pub version : ℕ
  pub asset_type : Bytes
  pub asset_id : Bytes
  pub timestamp : ℕ
  pub qty : ℕ
  pub message : Bytes

-- The assignments of `BuildMessage`.
unfoldable pub thaw_form_steps : List (Assignment ThawForm Thaw)
thaw_form_steps =
    copied (λ f m. record m { version = f.version })
    ∷ padded 3 (λ f. f.asset_type) (λ m v. record m { asset_type = v })
    ∷ padded 32 (λ f. f.asset_id) (λ m v. record m { asset_id = v })
    ∷ copied (λ f m. record m { timestamp = f.timestamp })
    ∷ copied (λ f m. record m { qty = f.qty })
    ∷ padded 61 (λ f. f.message) (λ m v. record m { message = v })
    ∷ []

-- The numbers and bytes are in the range of their types.
abbrev pub ThawFormTyped : ThawForm → Type 0
ThawFormTyped f = Word 1 f.version × Word 8 f.timestamp × Word 8 f.qty

thaw_form_steps-Fits :
    (f : ThawForm)
    → ThawFormTyped f
    → Short thaw_form_steps f
    → Interface.Fits thaw_format (built thaw_form_steps f new_thaw)
unfolding thaw_form_steps thaw_format
thaw_form_steps-Fits f (t0, t1, t2) (h0, (h1, (h2, tt))) = (
  refl,
  (
    omega arith,
    (
      omega arith,
      (
        omega arith,
        (
          t0,
          (
            fits-pad f.asset_type 3 h0,
            (fits-pad f.asset_id 32 h1, (t1, (t2, (fits-pad f.message 61 h2, tt)))),
          ),
        ),
      ),
    ),
  ),
)

unfoldable pub thaw_form : FormOf Code.e3 ThawForm
unfolding thaw_form_steps thaw_codec plain_form codec thaw_form_steps-Fits
thaw_form =
    plain_form Code.e3 thaw_form_steps ThawFormTyped thaw_form_steps-Fits (λ f. (refl, refl))
