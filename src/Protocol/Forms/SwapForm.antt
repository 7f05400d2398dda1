-- ===== src/Protocol/Forms/SwapForm.antt =====
-- `SwapForm` in `pkg/protocol/protocol_forms.go`, and that the message it builds fits its format.
use smart_contract.Prelude.{ℕ, refl, Bytes, List, [], ◌∷◌, arith}
use smart_contract.Protocol.Codes.{Code}
use smart_contract.Protocol.Requests.{Float32}
use smart_contract.Protocol.Records.{Swap}
use smart_contract.Protocol.Codec.Swap.{swap_format, swap_codec, new_swap}
use smart_contract.Protocol.Codec.Interface
use smart_contract.Protocol.Codec.Laws.{Word}
use smart_contract.Protocol.OpReturn.{codec}
use smart_contract.Protocol.Forms.{Assignment, padded, copied}
use smart_contract.Protocol.Forms.Laws.{fits-pad, Short, built}
use smart_contract.Protocol.Forms.Interface.{FormOf, plain_form}

pub record SwapForm : Type 0 where
  pub version : ℕ
  pub party1_asset_type : Bytes
  pub party1_asset_id : Bytes
  pub party1_token_qty : ℕ
  pub offer_valid_until : ℕ
  pub party2_asset_type : Bytes
  pub party2_asset_id : Bytes
  pub party2_token_qty : ℕ
  pub exchange_fee_currency : Bytes
  pub exchange_fee_var : Float32
  pub exchange_fee_fixed : Float32
  pub exchange_fee_address : Bytes

-- The assignments of `BuildMessage`.
unfoldable pub swap_form_steps : List (Assignment SwapForm Swap)
swap_form_steps =
    copied (λ f m. record m { version = f.version })
    ∷ padded 3 (λ f. f.party1_asset_type) (λ m v. record m { party1_asset_type = v })
    ∷ padded 32 (λ f. f.party1_asset_id) (λ m v. record m { party1_asset_id = v })
    ∷ copied (λ f m. record m { party1_token_qty = f.party1_token_qty })
    ∷ copied (λ f m. record m { offer_valid_until = f.offer_valid_until })
    ∷ padded 3 (λ f. f.party2_asset_type) (λ m v. record m { party2_asset_type = v })
    ∷ padded 32 (λ f. f.party2_asset_id) (λ m v. record m { party2_asset_id = v })
    ∷ copied (λ f m. record m { party2_token_qty = f.party2_token_qty })
    ∷ padded 3 (λ f. f.exchange_fee_currency) (λ m v. record m { exchange_fee_currency = v })
    ∷ copied (λ f m. record m { exchange_fee_var = f.exchange_fee_var })
    ∷ copied (λ f m. record m { exchange_fee_fixed = f.exchange_fee_fixed })
    ∷ padded 34 (λ f. f.exchange_fee_address) (λ m v. record m { exchange_fee_address = v })
    ∷ []

-- The numbers and bytes are in the range of their types.
abbrev pub SwapFormTyped : SwapForm → Type 0
SwapFormTyped f =
    Word 1 f.version
    × Word 8 f.party1_token_qty
    × Word 8 f.offer_valid_until
    × Word 8 f.party2_token_qty
    × Word 4 f.exchange_fee_var
    × Word 4 f.exchange_fee_fixed

swap_form_steps-Fits :
    (f : SwapForm)
    → SwapFormTyped f
    → Short swap_form_steps f
    → Interface.Fits swap_format (built swap_form_steps f new_swap)
unfolding swap_form_steps swap_format
swap_form_steps-Fits f (t0, t1, t2, t3, t4, t5) (h0, (h1, (h2, (h3, (h4, (h5, tt)))))) = (
  refl,
  (
    omega arith,
    (
      omega arith,
      (
        omega arith,
        (
          t0,
          (
            fits-pad f.party1_asset_type 3 h0,
            (
              fits-pad f.party1_asset_id 32 h1,
              (
                t1,
                (
                  t2,
                  (
                    fits-pad f.party2_asset_type 3 h2,
                    (
                      fits-pad f.party2_asset_id 32 h3,
                      (
                        t3,
                        (
                          fits-pad f.exchange_fee_currency 3 h4,
                          (t4, (t5, (fits-pad f.exchange_fee_address 34 h5, tt))),
                        ),
                      ),
                    ),
                  ),
                ),
              ),
            ),
          ),
        ),
      ),
    ),
  ),
)

unfoldable pub swap_form : FormOf Code.t3 SwapForm
unfolding swap_form_steps swap_codec plain_form codec swap_form_steps-Fits
swap_form =
    plain_form Code.t3 swap_form_steps SwapFormTyped swap_form_steps-Fits (λ f. (refl, refl))
