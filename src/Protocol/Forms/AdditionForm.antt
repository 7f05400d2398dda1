-- ===== src/Protocol/Forms/AdditionForm.antt =====
-- `AdditionForm` in `pkg/protocol/protocol_forms.go`, and that the message it builds fits its format.
use smart_contract.Prelude.{ℕ, refl, Bytes, List, [], ◌∷◌, arith}
use smart_contract.Protocol.Codes.{Code}
use smart_contract.Protocol.Records.{Addition}
use smart_contract.Protocol.Codec.Addition.{addition_format, addition_codec, new_addition}
use smart_contract.Protocol.Codec.Interface
use smart_contract.Protocol.Codec.Laws.{Word}
use smart_contract.Protocol.OpReturn.{codec}
use smart_contract.Protocol.Forms.{Assignment, padded, ensured, copied}
use smart_contract.Protocol.Forms.Laws.{IsText, first_byte-Word, fits-pad, Short, built}
use smart_contract.Protocol.Forms.Interface.{FormOf, plain_form}

pub record AdditionForm : Type 0 where
  pub version : ℕ
  pub sublist : Bytes
  pub kyc : Bytes
  pub kyc_jurisdiction : Bytes
  pub dob : ℕ
  pub country_of_residence : Bytes
  pub supporting_documentation_hash : Bytes
  pub message : Bytes

-- The assignments of `BuildMessage`.
unfoldable pub addition_form_steps : List (Assignment AdditionForm Addition)
addition_form_steps =
    copied (λ f m. record m { version = f.version })
    ∷ padded 4 (λ f. f.sublist) (λ m v. record m { sublist = v })
    ∷ ensured (λ f. f.kyc) (λ m v. record m { kyc = v })
    ∷ padded 5 (λ f. f.kyc_jurisdiction) (λ m v. record m { kyc_jurisdiction = v })
    ∷ copied (λ f m. record m { dob = f.dob })
    ∷ padded 3 (λ f. f.country_of_residence) (λ m v. record m { country_of_residence = v })
    ∷ padded 32 (λ f. f.supporting_documentation_hash)
        (λ m v. record m { supporting_documentation_hash = v })
    ∷ padded 148 (λ f. f.message) (λ m v. record m { message = v })
    ∷ []

-- The numbers and bytes are in the range of their types.
abbrev pub AdditionFormTyped : AdditionForm → Type 0
AdditionFormTyped f = Word 1 f.version × IsText f.kyc × Word 8 f.dob

addition_form_steps-Fits :
    (f : AdditionForm)
    → AdditionFormTyped f
    → Short addition_form_steps f
    → Interface.Fits addition_format (built addition_form_steps f new_addition)
unfolding addition_form_steps addition_format
addition_form_steps-Fits f (t0, t1, t2) (h0, (h1, (h2, (h3, (h4, (h5, tt)))))) = (
  refl,
  (
    omega arith,
    (
      omega arith,
      (
        omega arith,
        (
          t0,
          (
            fits-pad f.sublist 4 h0,
            (
              first_byte-Word f.kyc t1,
              (
                fits-pad f.kyc_jurisdiction 5 h2,
                (
                  t2,
                  (
                    fits-pad f.country_of_residence 3 h3,
                    (
                      fits-pad f.supporting_documentation_hash 32 h4,
                      (fits-pad f.message 148 h5, tt),
                    ),
                  ),
                ),
              ),
            ),
          ),
        ),
      ),
    ),
  ),
)

unfoldable pub addition_form : FormOf Code.r2 AdditionForm
unfolding addition_form_steps addition_codec plain_form codec addition_form_steps-Fits
addition_form =
    plain_form Code.r2 addition_form_steps AdditionFormTyped addition_form_steps-Fits
      (λ f. (refl, refl))
