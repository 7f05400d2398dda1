-- ===== src/Protocol/Forms/ExchangeForm.antt =====
-- `ExchangeForm` in `pkg/protocol/protocol_forms.go`, and that the message it builds fits its format.
use smart_contract.Prelude.{ℕ, refl, Bytes, List, [], ◌∷◌, arith}
use smart_contract.Protocol.Codes.{Code}
use smart_contract.Protocol.Requests.{Exchange, Float32}
use smart_contract.Protocol.Codec.Exchange.{exchange_format, exchange_codec, new_exchange}
use smart_contract.Protocol.Codec.Interface
use smart_contract.Protocol.Codec.Laws.{Word}
use smart_contract.Protocol.OpReturn.{codec}
use smart_contract.Protocol.Forms.{Assignment, padded, copied}
use smart_contract.Protocol.Forms.Laws.{fits-pad, Short, built}
use smart_contract.Protocol.Forms.Interface.{FormOf, plain_form}

pub record ExchangeForm : Type 0 where
  pub version : ℕ
  pub party1_asset_type : Bytes
  pub party1_asset_id : Bytes
  pub party1_token_qty : ℕ
  pub offer_valid_until : ℕ
  pub exchange_fee_currency : Bytes
  pub exchange_fee_var : Float32
  pub exchange_fee_fixed : Float32
  pub exchange_fee_address : Bytes

-- The assignments of `BuildMessage`.
unfoldable pub exchange_form_steps : List (Assignment ExchangeForm Exchange)
exchange_form_steps =
    copied (λ f m. record m { version = f.version })
    ∷ padded 3 (λ f. f.party1_asset_type) (λ m v. record m { party1_asset_type = v })
    ∷ padded 32 (λ f. f.party1_asset_id) (λ m v. record m { party1_asset_id = v })
    ∷ copied (λ f m. record m { party1_token_qty = f.party1_token_qty })
    ∷ copied (λ f m. record m { offer_valid_until = f.offer_valid_until })
    ∷ padded 3 (λ f. f.exchange_fee_currency) (λ m v. record m { exchange_fee_currency = v })
    ∷ copied (λ f m. record m { exchange_fee_var = f.exchange_fee_var })
    ∷ copied (λ f m. record m { exchange_fee_fixed = f.exchange_fee_fixed })
    ∷ padded 34 (λ f. f.exchange_fee_address) (λ m v. record m { exchange_fee_address = v })
    ∷ []

-- The numbers and bytes are in the range of their types.
abbrev pub ExchangeFormTyped : ExchangeForm → Type 0
ExchangeFormTyped f =
    Word 1 f.version
    × Word 8 f.party1_token_qty
    × Word 8 f.offer_valid_until
    × Word 4 f.exchange_fee_var
    × Word 4 f.exchange_fee_fixed

exchange_form_steps-Fits :
    (f : ExchangeForm)
    → ExchangeFormTyped f
    → Short exchange_form_steps f
    → Interface.Fits exchange_format (built exchange_form_steps f new_exchange)
unfolding exchange_form_steps exchange_format
exchange_form_steps-Fits f (t0, t1, t2, t3, t4) (h0, (h1, (h2, (h3, tt)))) = (
  refl,
  (
    omega arith,
    (
      omega arith,
      (
        omega arith,
        (
          t0,
          (
            fits-pad f.party1_asset_type 3 h0,
            (
              fits-pad f.party1_asset_id 32 h1,
              (
                t1,
                (
                  t2,
                  (
                    fits-pad f.exchange_fee_currency 3 h2,
                    (t3, (t4, (fits-pad f.exchange_fee_address 34 h3, tt))),
                  ),
                ),
              ),
            ),
          ),
        ),
      ),
    ),
  ),
)

unfoldable pub exchange_form : FormOf Code.t2 ExchangeForm
unfolding exchange_form_steps exchange_codec plain_form codec exchange_form_steps-Fits
exchange_form =
    plain_form Code.t2 exchange_form_steps ExchangeFormTyped exchange_form_steps-Fits
      (λ f. (refl, refl))
