-- ===== src/Protocol/Forms/ResultForm.antt =====
-- `ResultForm` in `pkg/protocol/protocol_forms.go`, and that the message it builds fits its format.
use smart_contract.Prelude.{ℕ, refl, Bytes, List, [], ◌∷◌, arith}
use smart_contract.Protocol.Codes.{Code}
use smart_contract.Protocol.Records.{Result}
use smart_contract.Protocol.Codec.Result.{result_format, result_codec, new_result}
use smart_contract.Protocol.Codec.Interface
use smart_contract.Protocol.Codec.Laws.{Word}
use smart_contract.Protocol.OpReturn.{codec}
use smart_contract.Protocol.Forms.{Assignment, padded, ensured, copied}
use smart_contract.Protocol.Forms.Laws.{IsText, first_byte-Word, fits-pad, Short, built}
use smart_contract.Protocol.Forms.Interface.{FormOf, plain_form}

pub record ResultForm : Type 0 where
  pub version : ℕ
  pub asset_type : Bytes
  pub asset_id : Bytes
  pub vote_type : Bytes
  pub vote_txn_id : Bytes
  pub timestamp : ℕ
  pub option1_tally : ℕ
  pub option2_tally : ℕ
  pub option3_tally : ℕ
  pub option4_tally : ℕ
  pub option5_tally : ℕ
  pub option6_tally : ℕ
  pub option7_tally : ℕ
  pub option8_tally : ℕ
  pub option9_tally : ℕ
  pub option10_tally : ℕ
  pub option11_tally : ℕ
  pub option12_tally : ℕ
  pub option13_tally : ℕ
  pub option14_tally : ℕ
  pub option15_tally : ℕ
  pub result : Bytes

-- The assignments of `BuildMessage`.
unfoldable pub result_form_steps : List (Assignment ResultForm Result)
result_form_steps =
    copied (λ f m. record m { version = f.version })
    ∷ padded 3 (λ f. f.asset_type) (λ m v. record m { asset_type = v })
    ∷ padded 32 (λ f. f.asset_id) (λ m v. record m { asset_id = v })
    ∷ ensured (λ f. f.vote_type) (λ m v. record m { vote_type = v })
    ∷ padded 32 (λ f. f.vote_txn_id) (λ m v. record m { vote_txn_id = v })
    ∷ copied (λ f m. record m { timestamp = f.timestamp })
    ∷ copied (λ f m. record m { option1_tally = f.option1_tally })
    ∷ copied (λ f m. record m { option2_tally = f.option2_tally })
    ∷ copied (λ f m. record m { option3_tally = f.option3_tally })
    ∷ copied (λ f m. record m { option4_tally = f.option4_tally })
    ∷ copied (λ f m. record m { option5_tally = f.option5_tally })
    ∷ copied (λ f m. record m { option6_tally = f.option6_tally })
    ∷ copied (λ f m. record m { option7_tally = f.option7_tally })
    ∷ copied (λ f m. record m { option8_tally = f.option8_tally })
    ∷ copied (λ f m. record m { option9_tally = f.option9_tally })
    ∷ copied (λ f m. record m { option10_tally = f.option10_tally })
    ∷ copied (λ f m. record m { option11_tally = f.option11_tally })
    ∷ copied (λ f m. record m { option12_tally = f.option12_tally })
    ∷ copied (λ f m. record m { option13_tally = f.option13_tally })
    ∷ copied (λ f m. record m { option14_tally = f.option14_tally })
    ∷ copied (λ f m. record m { option15_tally = f.option15_tally })
    ∷ padded 16 (λ f. f.result) (λ m v. record m { result = v })
    ∷ []

-- The numbers and bytes are in the range of their types.
abbrev pub ResultFormTyped : ResultForm → Type 0
ResultFormTyped f =
    Word 1 f.version
    × IsText f.vote_type
    × Word 8 f.timestamp
    × Word 8 f.option1_tally
    × Word 8 f.option2_tally
    × Word 8 f.option3_tally
    × Word 8 f.option4_tally
    × Word 8 f.option5_tally
    × Word 8 f.option6_tally
    × Word 8 f.option7_tally
    × Word 8 f.option8_tally
    × Word 8 f.option9_tally
    × Word 8 f.option10_tally
    × Word 8 f.option11_tally
    × Word 8 f.option12_tally
    × Word 8 f.option13_tally
    × Word 8 f.option14_tally
    × Word 8 f.option15_tally

result_form_steps-Fits :
    (f : ResultForm)
    → ResultFormTyped f
    → Short result_form_steps f
    → Interface.Fits result_format (built result_form_steps f new_result)
unfolding result_form_steps result_format
result_form_steps-Fits f
      (t0, t1, t2, t3, t4, t5, t6, t7, t8, t9, t10, t11, t12, t13, t14, t15, t16, t17)
      (h0, (h1, (h2, (h3, (h4, tt))))) =
    (
      refl,
      (
        omega arith,
        (
          omega arith,
          (
            omega arith,
            (
              t0,
              (
                fits-pad f.asset_type 3 h0,
                (
                  fits-pad f.asset_id 32 h1,
                  (
                    first_byte-Word f.vote_type t1,
                    (
                      fits-pad f.vote_txn_id 32 h3,
                      (
                        t2,
                        (
                          t3,
                          (
                            t4,
                            (
                              t5,
                              (
                                t6,
                                (
                                  t7,
                                  (
                                    t8,
                                    (
                                      t9,
                                      (
                                        t10,
                                        (
                                          t11,
                                          (
                                            t12,
                                            (
                                              t13,
                                              (
                                                t14,
                                                (t15, (t16, (t17, (fits-pad f.result 16 h4, tt)))),
                                              ),
                                            ),
                                          ),
                                        ),
                                      ),
                                    ),
                                  ),
                                ),
                              ),
                            ),
                          ),
                        ),
                      ),
                    ),
                  ),
                ),
              ),
            ),
          ),
        ),
      ),
    )

unfoldable pub result_form : FormOf Code.g6 ResultForm
unfolding result_form_steps result_codec plain_form codec result_form_steps-Fits
result_form =
    plain_form Code.g6 result_form_steps ResultFormTyped result_form_steps-Fits (λ f. (refl, refl))
