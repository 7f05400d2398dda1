-- ===== src/Protocol/Forms/OrderForm.antt =====
-- `OrderForm` in `pkg/protocol/protocol_forms.go`, and that the message it builds fits its format.
use smart_contract.Prelude.{ℕ, refl, Bytes, List, [], ◌∷◌, arith}
use smart_contract.Protocol.Codes.{Code}
use smart_contract.Protocol.Requests.{Order}
use smart_contract.Protocol.Codec.Order.{order_format, order_codec, new_order}
use smart_contract.Protocol.Codec.Interface
use smart_contract.Protocol.Codec.Laws.{Word}
use smart_contract.Protocol.OpReturn.{codec}
use smart_contract.Protocol.Forms.{Assignment, padded, ensured, copied}
use smart_contract.Protocol.Forms.Laws.{IsText, first_byte-Word, fits-pad, Short, built}
use smart_contract.Protocol.Forms.Interface.{FormOf, plain_form}

pub record OrderForm : Type 0 where
  pub version : ℕ
  pub asset_type : Bytes
  pub asset_id : Bytes
  pub compliance_action : Bytes
  pub target_address : Bytes
  pub deposit_address : Bytes
  pub supporting_evidence_hash : Bytes
  pub qty : ℕ
  pub expiration : ℕ
  pub message : Bytes

-- The assignments of `BuildMessage`.
unfoldable pub order_form_steps : List (Assignment OrderForm Order)
order_form_steps =
    copied (λ f m. record m { version = f.version })
    ∷ padded 3 (λ f. f.asset_type) (λ m v. record m { asset_type = v })
    ∷ padded 32 (λ f. f.asset_id) (λ m v. record m { asset_id = v })
    ∷ ensured (λ f. f.compliance_action) (λ m v. record m { compliance_action = v })
    ∷ padded 34 (λ f. f.target_address) (λ m v. record m { target_address = v })
    ∷ padded 34 (λ f. f.deposit_address) (λ m v. record m { deposit_address = v })
    ∷ padded 32 (λ f. f.supporting_evidence_hash) (λ m v. record m { supporting_evidence_hash = v })
    ∷ copied (λ f m. record m { qty = f.qty })
    ∷ copied (λ f m. record m { expiration = f.expiration })
    ∷ padded 61 (λ f. f.message) (λ m v. record m { message = v })
    ∷ []

-- The numbers and bytes are in the range of their types.
abbrev pub OrderFormTyped : OrderForm → Type 0
OrderFormTyped f =
    Word 1 f.version × IsText f.compliance_action × Word 8 f.qty × Word 8 f.expiration

order_form_steps-Fits :
    (f : OrderForm)
    → OrderFormTyped f
    → Short order_form_steps f
    → Interface.Fits order_format (built order_form_steps f new_order)
unfolding order_form_steps order_format
order_form_steps-Fits f (t0, t1, t2, t3) (h0, (h1, (h2, (h3, (h4, (h5, (h6, tt))))))) = (
  refl,
  (
    omega arith,
    (
      omega arith,
      (
        omega arith,
        (
          t0,
          (
            fits-pad f.asset_type 3 h0,
            (
              fits-pad f.asset_id 32 h1,
              (
                first_byte-Word f.compliance_action t1,
                (
                  fits-pad f.target_address 34 h3,
                  (
                    fits-pad f.deposit_address 34 h4,
                    (
                      fits-pad f.supporting_evidence_hash 32 h5,
                      (t2, (t3, (fits-pad f.message 61 h6, tt))),
                    ),
                  ),
                ),
              ),
            ),
          ),
        ),
      ),
    ),
  ),
)

unfoldable pub order_form : FormOf Code.e1 OrderForm
unfolding order_form_steps order_codec plain_form codec order_form_steps-Fits
order_form =
    plain_form Code.e1 order_form_steps OrderFormTyped order_form_steps-Fits (λ f. (refl, refl))
