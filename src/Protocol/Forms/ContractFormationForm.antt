-- ===== src/Protocol/Forms/ContractFormationForm.antt =====
-- `ContractFormationForm` in `pkg/protocol/protocol_forms.go`, and that the message it builds fits its
-- format.
use smart_contract.Prelude.{ℕ, refl, Bytes, List, [], ◌∷◌, arith}
use smart_contract.Protocol.Codes.{Code}
use smart_contract.Protocol.Requests.{Float32}
use smart_contract.Protocol.Responses.{ContractFormation}
use smart_contract.Protocol.Codec.ContractFormation.{
  contract_formation_format, contract_formation_codec,
}
use smart_contract.Protocol.Responses.{new_contract_formation}
use smart_contract.Protocol.Codec.Interface
use smart_contract.Protocol.Codec.Laws.{Word}
use smart_contract.Protocol.OpReturn.{codec}
use smart_contract.Protocol.Forms.{Assignment, padded, ensured, copied}
use smart_contract.Protocol.Forms.Laws.{IsText, first_byte-Word, fits-pad, Short, built}
use smart_contract.Protocol.Forms.Interface.{FormOf, plain_form}

pub record ContractFormationForm : Type 0 where
  pub version : ℕ
  pub contract_name : Bytes
  pub contract_file_hash : Bytes
  pub governing_law : Bytes
  pub jurisdiction : Bytes
  pub contract_expiration : ℕ
  pub uri : Bytes
  pub contract_revision : ℕ
  pub issuer_id : Bytes
  pub issuer_type : Bytes
  pub contract_operator_id : Bytes
  pub authorization_flags : Bytes
  pub voting_system : Bytes
  pub initiative_threshold : Float32
  pub initiative_threshold_currency : Bytes
  pub restricted_qty : ℕ

-- The assignments of `BuildMessage`.
unfoldable pub contract_formation_form_steps :
    List (Assignment ContractFormationForm ContractFormation)
contract_formation_form_steps =
    copied (λ f m. record m { version = f.version })
    ∷ padded 32 (λ f. f.contract_name) (λ m v. record m { contract_name = v })
    ∷ padded 32 (λ f. f.contract_file_hash) (λ m v. record m { contract_file_hash = v })
    ∷ padded 5 (λ f. f.governing_law) (λ m v. record m { governing_law = v })
    ∷ padded 5 (λ f. f.jurisdiction) (λ m v. record m { jurisdiction = v })
    ∷ copied (λ f m. record m { contract_expiration = f.contract_expiration })
    ∷ padded 78 (λ f. f.uri) (λ m v. record m { uri = v })
    ∷ copied (λ f m. record m { contract_revision = f.contract_revision })
    ∷ padded 16 (λ f. f.issuer_id) (λ m v. record m { issuer_id = v })
    ∷ ensured (λ f. f.issuer_type) (λ m v. record m { issuer_type = v })
    ∷ padded 16 (λ f. f.contract_operator_id) (λ m v. record m { contract_operator_id = v })
    ∷ padded 2 (λ f. f.authorization_flags) (λ m v. record m { authorization_flags = v })
    ∷ ensured (λ f. f.voting_system) (λ m v. record m { voting_system = v })
    ∷ copied (λ f m. record m { initiative_threshold = f.initiative_threshold })
    ∷ padded 3 (λ f. f.initiative_threshold_currency)
        (λ m v. record m { initiative_threshold_currency = v })
    ∷ copied (λ f m. record m { restricted_qty = f.restricted_qty })
    ∷ []

-- The numbers and bytes are in the range of their types.
abbrev pub ContractFormationFormTyped : ContractFormationForm → Type 0
ContractFormationFormTyped f =
    Word 1 f.version
    × Word 8 f.contract_expiration
    × Word 2 f.contract_revision
    × IsText f.issuer_type
    × IsText f.voting_system
    × Word 4 f.initiative_threshold
    × Word 8 f.restricted_qty

contract_formation_form_steps-Fits :
    (f : ContractFormationForm)
    → ContractFormationFormTyped f
    → Short contract_formation_form_steps f
    → Interface.Fits contract_formation_format
        (built contract_formation_form_steps f new_contract_formation)
unfolding contract_formation_form_steps contract_formation_format
contract_formation_form_steps-Fits f (t0, t1, t2, t3, t4, t5, t6)
      (h0, (h1, (h2, (h3, (h4, (h5, (h6, (h7, (h8, (h9, (h10, tt))))))))))) =
    (
      refl,
      (
        omega arith,
        (
          omega arith,
          (
            omega arith,
            (
              t0,
              (
                fits-pad f.contract_name 32 h0,
                (
                  fits-pad f.contract_file_hash 32 h1,
                  (
                    fits-pad f.governing_law 5 h2,
                    (
                      fits-pad f.jurisdiction 5 h3,
                      (
                        t1,
                        (
                          fits-pad f.uri 78 h4,
                          (
                            t2,
                            (
                              fits-pad f.issuer_id 16 h5,
                              (
                                first_byte-Word f.issuer_type t3,
                                (
                                  fits-pad f.contract_operator_id 16 h7,
                                  (
                                    fits-pad f.authorization_flags 2 h8,
                                    (
                                      first_byte-Word f.voting_system t4,
                                      (
                                        t5,
                                        (fits-pad f.initiative_threshold_currency 3 h10, (t6, tt)),
                                      ),
                                    ),
                                  ),
                                ),
                              ),
                            ),
                          ),
                        ),
                      ),
                    ),
                  ),
                ),
              ),
            ),
          ),
        ),
      ),
    )

unfoldable pub contract_formation_form : FormOf Code.c2 ContractFormationForm
unfolding contract_formation_form_steps contract_formation_codec plain_form codec
    contract_formation_form_steps-Fits
contract_formation_form =
    plain_form Code.c2 contract_formation_form_steps ContractFormationFormTyped
      contract_formation_form_steps-Fits (λ f. (refl, refl))
