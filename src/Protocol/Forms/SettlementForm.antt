-- ===== src/Protocol/Forms/SettlementForm.antt =====
-- `SettlementForm` in `pkg/protocol/protocol_forms.go`, and that the message it builds fits its format.
use smart_contract.Prelude.{ℕ, refl, Bytes, List, [], ◌∷◌, arith}
use smart_contract.Protocol.Codes.{Code}
use smart_contract.Protocol.Responses.{Settlement}
use smart_contract.Protocol.Codec.Settlement.{settlement_format, settlement_codec}
use smart_contract.Protocol.Responses.{new_settlement}
use smart_contract.Protocol.Codec.Interface
use smart_contract.Protocol.Codec.Laws.{Word}
use smart_contract.Protocol.OpReturn.{codec}
use smart_contract.Protocol.Forms.{Assignment, padded, copied}
use smart_contract.Protocol.Forms.Laws.{fits-pad, Short, built}
use smart_contract.Protocol.Forms.Interface.{FormOf, plain_form}

pub record SettlementForm : Type 0 where
  pub version : ℕ
  pub asset_type : Bytes
  pub asset_id : Bytes
  pub party1_token_qty : ℕ
  pub party2_token_qty : ℕ
  pub timestamp : ℕ

-- The assignments of `BuildMessage`.
unfoldable pub settlement_form_steps : List (Assignment SettlementForm Settlement)
settlement_form_steps =
    copied (λ f m. record m { version = f.version })
    ∷ padded 3 (λ f. f.asset_type) (λ m v. record m { asset_type = v })
    ∷ padded 32 (λ f. f.asset_id) (λ m v. record m { asset_id = v })
    ∷ copied (λ f m. record m { party1_token_qty = f.party1_token_qty })
    ∷ copied (λ f m. record m { party2_token_qty = f.party2_token_qty })
    ∷ copied (λ f m. record m { timestamp = f.timestamp })
    ∷ []

-- The numbers and bytes are in the range of their types.
abbrev pub SettlementFormTyped : SettlementForm → Type 0
SettlementFormTyped f =
    Word 1 f.version × Word 8 f.party1_token_qty × Word 8 f.party2_token_qty × Word 8 f.timestamp

settlement_form_steps-Fits :
    (f : SettlementForm)
    → SettlementFormTyped f
    → Short settlement_form_steps f
    → Interface.Fits settlement_format (built settlement_form_steps f new_settlement)
unfolding settlement_form_steps settlement_format
settlement_form_steps-Fits f (t0, t1, t2, t3) (h0, (h1, tt)) = (
  refl,
  (
    omega arith,
    (
      omega arith,
      (
        omega arith,
        (t0, (fits-pad f.asset_type 3 h0, (fits-pad f.asset_id 32 h1, (t1, (t2, (t3, tt)))))),
      ),
    ),
  ),
)

unfoldable pub settlement_form : FormOf Code.t4 SettlementForm
unfolding settlement_form_steps settlement_codec plain_form codec settlement_form_steps-Fits
settlement_form =
    plain_form Code.t4 settlement_form_steps SettlementFormTyped settlement_form_steps-Fits
      (λ f. (refl, refl))
