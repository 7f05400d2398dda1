-- ===== src/Protocol/Forms/MessageForm.antt =====
-- `MessageForm` in `pkg/protocol/protocol_forms.go`, and that the message it builds fits its format.
use smart_contract.Prelude.{ℕ, refl, Bytes, List, [], ◌∷◌, arith}
use smart_contract.Protocol.Codes.{Code}
use smart_contract.Protocol.Records.{TextMessage}
use smart_contract.Protocol.Codec.TextMessage.{
  text_message_format, text_message_codec, new_text_message,
}
use smart_contract.Protocol.Codec.Interface
use smart_contract.Protocol.Codec.Laws.{Word}
use smart_contract.Protocol.OpReturn.{codec}
use smart_contract.Protocol.Forms.{Assignment, padded, copied}
use smart_contract.Protocol.Forms.Laws.{fits-pad, Short, built}
use smart_contract.Protocol.Forms.Interface.{FormOf, plain_form}

pub record MessageForm : Type 0 where
  pub version : ℕ
  pub timestamp : ℕ
  pub message_type : Bytes
  pub message : Bytes

-- The assignments of `BuildMessage`.
unfoldable pub message_form_steps : List (Assignment MessageForm TextMessage)
message_form_steps =
    copied (λ f m. record m { version = f.version })
    ∷ copied (λ f m. record m { timestamp = f.timestamp })
    ∷ padded 2 (λ f. f.message_type) (λ m v. record m { message_type = v })
    ∷ padded 203 (λ f. f.message) (λ m v. record m { message = v })
    ∷ []

-- The numbers and bytes are in the range of their types.
abbrev pub MessageFormTyped : MessageForm → Type 0
MessageFormTyped f = Word 1 f.version × Word 8 f.timestamp

message_form_steps-Fits :
    (f : MessageForm)
    → MessageFormTyped f
    → Short message_form_steps f
    → Interface.Fits text_message_format (built message_form_steps f new_text_message)
unfolding message_form_steps text_message_format
message_form_steps-Fits f (t0, t1) (h0, (h1, tt)) = (
  refl,
  (
    omega arith,
    (
      omega arith,
      (omega arith, (t0, (t1, (fits-pad f.message_type 2 h0, (fits-pad f.message 203 h1, tt))))),
    ),
  ),
)

unfoldable pub message_form : FormOf Code.m1 MessageForm
unfolding message_form_steps text_message_codec plain_form codec message_form_steps-Fits
message_form =
    plain_form Code.m1 message_form_steps MessageFormTyped message_form_steps-Fits
      (λ f. (refl, refl))
