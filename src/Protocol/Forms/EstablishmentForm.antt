-- ===== src/Protocol/Forms/EstablishmentForm.antt =====
-- `EstablishmentForm` in `pkg/protocol/protocol_forms.go`, and that the message it builds fits its
-- format.
use smart_contract.Prelude.{ℕ, refl, Bytes, List, [], ◌∷◌, arith}
use smart_contract.Protocol.Codes.{Code}
use smart_contract.Protocol.Records.{Establishment}
use smart_contract.Protocol.Codec.Establishment.{
  establishment_format, establishment_codec, new_establishment,
}
use smart_contract.Protocol.Codec.Interface
use smart_contract.Protocol.Codec.Laws.{Word}
use smart_contract.Protocol.OpReturn.{codec}
use smart_contract.Protocol.Forms.{Assignment, padded, ensured, copied}
use smart_contract.Protocol.Forms.Laws.{IsText, first_byte-Word, fits-pad, Short, built}
use smart_contract.Protocol.Forms.Interface.{FormOf, plain_form}

pub record EstablishmentForm : Type 0 where
  pub version : ℕ
  pub registrar : Bytes
  pub register_type : Bytes
  pub kyc_jurisdiction : Bytes
  pub dob : ℕ
  pub country_of_residence : Bytes
  pub supporting_documentation_hash : Bytes
  pub message : Bytes

-- The assignments of `BuildMessage`.
unfoldable pub establishment_form_steps : List (Assignment EstablishmentForm Establishment)
establishment_form_steps =
    copied (λ f m. record m { version = f.version })
    ∷ padded 16 (λ f. f.registrar) (λ m v. record m { registrar = v })
    ∷ ensured (λ f. f.register_type) (λ m v. record m { register_type = v })
    ∷ padded 5 (λ f. f.kyc_jurisdiction) (λ m v. record m { kyc_jurisdiction = v })
    ∷ copied (λ f m. record m { dob = f.dob })
    ∷ padded 3 (λ f. f.country_of_residence) (λ m v. record m { country_of_residence = v })
    ∷ padded 32 (λ f. f.supporting_documentation_hash)
        (λ m v. record m { supporting_documentation_hash = v })
    ∷ padded 148 (λ f. f.message) (λ m v. record m { message = v })
    ∷ []

-- The numbers and bytes are in the range of their types.
abbrev pub EstablishmentFormTyped : EstablishmentForm → Type 0
EstablishmentFormTyped f = Word 1 f.version × IsText f.register_type × Word 8 f.dob

establishment_form_steps-Fits :
    (f : EstablishmentForm)
    → EstablishmentFormTyped f
    → Short establishment_form_steps f
    → Interface.Fits establishment_format (built establishment_form_steps f new_establishment)
unfolding establishment_form_steps establishment_format
establishment_form_steps-Fits f (t0, t1, t2) (h0, (h1, (h2, (h3, (h4, (h5, tt)))))) = (
  refl,
  (
    omega arith,
    (
      omega arith,
      (
        omega arith,
        (
          t0,
          (
            fits-pad f.registrar 16 h0,
            (
              first_byte-Word f.register_type t1,
              (
                fits-pad f.kyc_jurisdiction 5 h2,
                (
                  t2,
                  (
                    fits-pad f.country_of_residence 3 h3,
                    (
                      fits-pad f.supporting_documentation_hash 32 h4,
                      (fits-pad f.message 148 h5, tt),
                    ),
                  ),
                ),
              ),
            ),
          ),
        ),
      ),
    ),
  ),
)

unfoldable pub establishment_form : FormOf Code.r1 EstablishmentForm
unfolding establishment_form_steps establishment_codec plain_form codec
    establishment_form_steps-Fits
establishment_form =
    plain_form Code.r1 establishment_form_steps EstablishmentFormTyped establishment_form_steps-Fits
      (λ f. (refl, refl))
