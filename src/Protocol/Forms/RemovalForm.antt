-- ===== src/Protocol/Forms/RemovalForm.antt =====
-- `RemovalForm` in `pkg/protocol/protocol_forms.go`, and that the message it builds fits its format.
use smart_contract.Prelude.{ℕ, refl, Bytes, List, [], ◌∷◌, arith}
use smart_contract.Protocol.Codes.{Code}
use smart_contract.Protocol.Records.{Removal}
use smart_contract.Protocol.Codec.Removal.{removal_format, removal_codec, new_removal}
use smart_contract.Protocol.Codec.Interface
use smart_contract.Protocol.Codec.Laws.{Word}
use smart_contract.Protocol.OpReturn.{codec}
use smart_contract.Protocol.Forms.{Assignment, padded, copied}
use smart_contract.Protocol.Forms.Laws.{fits-pad, Short, built}
use smart_contract.Protocol.Forms.Interface.{FormOf, plain_form}

pub record RemovalForm : Type 0 where
  pub version : ℕ
  pub supporting_documentation_hash : Bytes
  pub message : Bytes

-- The assignments of `BuildMessage`.
unfoldable pub removal_form_steps : List (Assignment RemovalForm Removal)
removal_form_steps =
    copied (λ f m. record m { version = f.version })
    ∷ padded 32 (λ f. f.supporting_documentation_hash)
        (λ m v. record m { supporting_documentation_hash = v })
    ∷ padded 181 (λ f. f.message) (λ m v. record m { message = v })
    ∷ []

-- The numbers and bytes are in the range of their types.
abbrev pub RemovalFormTyped : RemovalForm → Type 0
RemovalFormTyped f = Word 1 f.version

removal_form_steps-Fits :
    (f : RemovalForm)
    → RemovalFormTyped f
    → Short removal_form_steps f
    → Interface.Fits removal_format (built removal_form_steps f new_removal)
unfolding removal_form_steps removal_format
removal_form_steps-Fits f t0 (h0, (h1, tt)) = (
  refl,
  (
    omega arith,
    (
      omega arith,
      (
        omega arith,
        (t0, (fits-pad f.supporting_documentation_hash 32 h0, (fits-pad f.message 181 h1, tt))),
      ),
    ),
  ),
)

unfoldable pub removal_form : FormOf Code.r4 RemovalForm
unfolding removal_form_steps removal_codec plain_form codec removal_form_steps-Fits
removal_form =
    plain_form Code.r4 removal_form_steps RemovalFormTyped removal_form_steps-Fits
      (λ f. (refl, refl))
