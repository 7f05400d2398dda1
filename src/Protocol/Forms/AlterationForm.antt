-- ===== src/Protocol/Forms/AlterationForm.antt =====
-- `AlterationForm` in `pkg/protocol/protocol_forms.go`, and that the message it builds fits its format.
use smart_contract.Prelude.{ℕ, refl, Bytes, List, [], ◌∷◌, arith}
use smart_contract.Protocol.Codes.{Code}
use smart_contract.Protocol.Records.{Alteration}
use smart_contract.Protocol.Codec.Alteration.{alteration_format, alteration_codec, new_alteration}
use smart_contract.Protocol.Codec.Interface
use smart_contract.Protocol.Codec.Laws.{Word}
use smart_contract.Protocol.OpReturn.{codec}
use smart_contract.Protocol.Forms.{Assignment, padded, ensured, copied}
use smart_contract.Protocol.Forms.Laws.{IsText, first_byte-Word, fits-pad, Short, built}
use smart_contract.Protocol.Forms.Interface.{FormOf, plain_form}

pub record AlterationForm : Type 0 where
  pub version : ℕ
  pub sublist : Bytes
  pub kyc : Bytes
  pub kyc_jurisdiction : Bytes
  pub dob : ℕ
  pub country_of_residence : Bytes
  pub supporting_documentation_hash : Bytes
  pub message : Bytes

-- The assignments of `BuildMessage`.
unfoldable pub alteration_form_steps : List (Assignment AlterationForm Alteration)
alteration_form_steps =
    copied (λ f m. record m { version = f.version })
    ∷ padded 4 (λ f. f.sublist) (λ m v. record m { sublist = v })
    ∷ ensured (λ f. f.kyc) (λ m v. record m { kyc = v })
    ∷ padded 5 (λ f. f.kyc_jurisdiction) (λ m v. record m { kyc_jurisdiction = v })
    ∷ copied (λ f m. record m { dob = f.dob })
    ∷ padded 3 (λ f. f.country_of_residence) (λ m v. record m { country_of_residence = v })
    ∷ padded 32 (λ f. f.supporting_documentation_hash)
        (λ m v. record m { supporting_documentation_hash = v })
    ∷ padded 160 (λ f. f.message) (λ m v. record m { message = v })
    ∷ []

-- The numbers and bytes are in the range of their types.
abbrev pub AlterationFormTyped : AlterationForm → Type 0
AlterationFormTyped f = Word 1 f.version × IsText f.kyc × Word 8 f.dob

alteration_form_steps-Fits :
    (f : AlterationForm)
    → AlterationFormTyped f
    → Short alteration_form_steps f
    → Interface.Fits alteration_format (built alteration_form_steps f new_alteration)
unfolding alteration_form_steps alteration_format
alteration_form_steps-Fits f (t0, t1, t2) (h0, (h1, (h2, (h3, (h4, (h5, tt)))))) = (
  refl,
  (
    omega arith,
    (
      omega arith,
      (
        omega arith,
        (
          t0,
          (
            fits-pad f.sublist 4 h0,
            (
              first_byte-Word f.kyc t1,
              (
                fits-pad f.kyc_jurisdiction 5 h2,
                (
                  t2,
                  (
                    fits-pad f.country_of_residence 3 h3,
                    (
                      fits-pad f.supporting_documentation_hash 32 h4,
                      (fits-pad f.message 160 h5, tt),
                    ),
                  ),
                ),
              ),
            ),
          ),
        ),
      ),
    ),
  ),
)

unfoldable pub alteration_form : FormOf Code.r3 AlterationForm
unfolding alteration_form_steps alteration_codec plain_form codec alteration_form_steps-Fits
alteration_form =
    plain_form Code.r3 alteration_form_steps AlterationFormTyped alteration_form_steps-Fits
      (λ f. (refl, refl))
