-- ===== src/Protocol/Forms/AssetCreationForm.antt =====
-- `AssetCreationForm` in `pkg/protocol/protocol_forms.go`, and that the message it builds fits its
-- format.
use smart_contract.Prelude.{ℕ, ◌≤◌, refl, Bytes, List, [], ◌∷◌, length, arith}
use smart_contract.Protocol.Codes.{Code}
use smart_contract.Protocol.Requests.{Float32}
use smart_contract.Protocol.Responses.{AssetCreation}
use smart_contract.Protocol.Codec.AssetCreation.{asset_creation_format, asset_creation_codec}
use smart_contract.Protocol.Responses.{new_asset_creation}
use smart_contract.Protocol.Codec.Interface
use smart_contract.Protocol.Codec.Laws.{Word}
use smart_contract.Protocol.OpReturn.{codec}
use smart_contract.Protocol.Forms.{Assignment, padded, ensured, copied}
use smart_contract.Protocol.Forms.Laws.{IsText, first_byte-Word, fits-pad, Short, built}
use smart_contract.Protocol.Forms.Interface.{FormOf, asset_form}
use smart_contract.Protocol.Forms.Payloads.{Json}

pub record AssetCreationForm : Type 0 where
  pub version : ℕ
  pub asset_type : Bytes
  pub asset_id : Bytes
  pub asset_revision : ℕ
  pub authorization_flags : Bytes
  pub voting_system : Bytes
  pub vote_multiplier : ℕ
  pub qty : ℕ
  pub contract_fee_currency : Bytes
  pub contract_fee_var : Float32
  pub contract_fee_fixed : Float32
  pub payload : Bytes

-- The assignments of `BuildMessage`.
unfoldable pub asset_creation_form_steps : List (Assignment AssetCreationForm AssetCreation)
asset_creation_form_steps =
    copied (λ f m. record m { version = f.version })
    ∷ padded 3 (λ f. f.asset_type) (λ m v. record m { asset_type = v })
    ∷ padded 32 (λ f. f.asset_id) (λ m v. record m { asset_id = v })
    ∷ copied (λ f m. record m { asset_revision = f.asset_revision })
    ∷ padded 2 (λ f. f.authorization_flags) (λ m v. record m { authorization_flags = v })
    ∷ ensured (λ f. f.voting_system) (λ m v. record m { voting_system = v })
    ∷ copied (λ f m. record m { vote_multiplier = f.vote_multiplier })
    ∷ copied (λ f m. record m { qty = f.qty })
    ∷ padded 3 (λ f. f.contract_fee_currency) (λ m v. record m { contract_fee_currency = v })
    ∷ copied (λ f m. record m { contract_fee_var = f.contract_fee_var })
    ∷ copied (λ f m. record m { contract_fee_fixed = f.contract_fee_fixed })
    ∷ copied (λ f m. record m { payload = f.payload })
    ∷ []

-- The numbers and bytes are in the range of their types.
abbrev pub AssetCreationFormTyped : AssetCreationForm → Type 0
AssetCreationFormTyped f =
    Word 1 f.version
    × Word 2 f.asset_revision
    × IsText f.voting_system
    × Word 1 f.vote_multiplier
    × Word 8 f.qty
    × Word 4 f.contract_fee_var
    × Word 4 f.contract_fee_fixed

asset_creation_form_steps-Fits :
    (f : AssetCreationForm) (b : Bytes)
    → AssetCreationFormTyped f
    → Short asset_creation_form_steps f
    → length b ≤ 152
    → let m : AssetCreation = built asset_creation_form_steps f new_asset_creation in
      Interface.Fits asset_creation_format (record m { payload = b })
unfolding asset_creation_form_steps asset_creation_format
asset_creation_form_steps-Fits f b (t0, t1, t2, t3, t4, t5, t6) (h0, (h1, (h2, (h3, (h4, tt)))))
      fits =
    (
      refl,
      (
        omega arith,
        (
          omega arith,
          (
            omega arith,
            (
              t0,
              (
                fits-pad f.asset_type 3 h0,
                (
                  fits-pad f.asset_id 32 h1,
                  (
                    t1,
                    (
                      fits-pad f.authorization_flags 2 h2,
                      (
                        first_byte-Word f.voting_system t2,
                        (t3, (t4, (fits-pad f.contract_fee_currency 3 h4, (t5, (t6, (fits, tt)))))),
                      ),
                    ),
                  ),
                ),
              ),
            ),
          ),
        ),
      ),
    )

unfoldable pub asset_creation_form : Json → FormOf Code.a2 AssetCreationForm
unfolding asset_creation_form_steps asset_creation_codec asset_form codec
    asset_creation_form_steps-Fits
asset_creation_form json =
    asset_form Code.a2 asset_creation_form_steps AssetCreationFormTyped json (λ f. f.asset_type)
      (λ f. f.payload) (λ m b. record m { payload = b }) asset_creation_form_steps-Fits
      (λ f b. (refl, refl))
