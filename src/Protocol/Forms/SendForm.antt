-- ===== src/Protocol/Forms/SendForm.antt =====
-- `SendForm` in `pkg/protocol/protocol_forms.go`, and that the message it builds fits its format.
use smart_contract.Prelude.{ℕ, refl, Bytes, List, [], ◌∷◌, arith}
use smart_contract.Protocol.Codes.{Code}
use smart_contract.Protocol.Requests.{Send}
use smart_contract.Protocol.Codec.Send.{send_format, send_codec, new_send}
use smart_contract.Protocol.Codec.Interface
use smart_contract.Protocol.Codec.Laws.{Word}
use smart_contract.Protocol.OpReturn.{codec}
use smart_contract.Protocol.Forms.{Assignment, padded, copied}
use smart_contract.Protocol.Forms.Laws.{fits-pad, Short, built}
use smart_contract.Protocol.Forms.Interface.{FormOf, plain_form}

pub record SendForm : Type 0 where
  pub version : ℕ
  pub asset_type : Bytes
  pub asset_id : Bytes
  pub token_qty : ℕ

-- The assignments of `BuildMessage`.
unfoldable pub send_form_steps : List (Assignment SendForm Send)
send_form_steps =
    copied (λ f m. record m { version = f.version })
    ∷ padded 3 (λ f. f.asset_type) (λ m v. record m { asset_type = v })
    ∷ padded 32 (λ f. f.asset_id) (λ m v. record m { asset_id = v })
    ∷ copied (λ f m. record m { token_qty = f.token_qty })
    ∷ []

-- The numbers and bytes are in the range of their types.
abbrev pub SendFormTyped : SendForm → Type 0
SendFormTyped f = Word 1 f.version × Word 8 f.token_qty

send_form_steps-Fits :
    (f : SendForm)
    → SendFormTyped f
    → Short send_form_steps f
    → Interface.Fits send_format (built send_form_steps f new_send)
unfolding send_form_steps send_format
send_form_steps-Fits f (t0, t1) (h0, (h1, tt)) = (
  refl,
  (
    omega arith,
    (
      omega arith,
      (omega arith, (t0, (fits-pad f.asset_type 3 h0, (fits-pad f.asset_id 32 h1, (t1, tt))))),
    ),
  ),
)

unfoldable pub send_form : FormOf Code.t1 SendForm
unfolding send_form_steps send_codec plain_form codec send_form_steps-Fits
send_form =
    plain_form Code.t1 send_form_steps SendFormTyped send_form_steps-Fits (λ f. (refl, refl))
