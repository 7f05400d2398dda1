-- ===== src/Protocol/Forms/VoteForm.antt =====
-- `VoteForm` in `pkg/protocol/protocol_forms.go`, and that the message it builds fits its format.
use smart_contract.Prelude.{ℕ, refl, Bytes, List, [], ◌∷◌, arith}
use smart_contract.Protocol.Codes.{Code}
use smart_contract.Protocol.Responses.{VoteMessage}
use smart_contract.Protocol.Codec.VoteMessage.{vote_message_format, vote_message_codec}
use smart_contract.Protocol.Responses.{new_vote_message}
use smart_contract.Protocol.Codec.Interface
use smart_contract.Protocol.Codec.Laws.{Word}
use smart_contract.Protocol.OpReturn.{codec}
use smart_contract.Protocol.Forms.{Assignment, padded, ensured, copied}
use smart_contract.Protocol.Forms.Laws.{IsText, first_byte-Word, fits-pad, Short, built}
use smart_contract.Protocol.Forms.Interface.{FormOf, plain_form}

pub record VoteForm : Type 0 where
  pub version : ℕ
  pub asset_type : Bytes
  pub asset_id : Bytes
  pub vote_type : Bytes
  pub vote_options : Bytes
  pub vote_max : ℕ
  pub vote_logic : Bytes
  pub proposal_description : Bytes
  pub proposal_document_hash : Bytes
  pub vote_cut_off_timestamp : ℕ
  pub timestamp : ℕ

-- The assignments of `BuildMessage`.
unfoldable pub vote_form_steps : List (Assignment VoteForm VoteMessage)
vote_form_steps =
    copied (λ f m. record m { version = f.version })
    ∷ padded 3 (λ f. f.asset_type) (λ m v. record m { asset_type = v })
    ∷ padded 32 (λ f. f.asset_id) (λ m v. record m { asset_id = v })
    ∷ ensured (λ f. f.vote_type) (λ m v. record m { vote_type = v })
    ∷ padded 16 (λ f. f.vote_options) (λ m v. record m { vote_options = v })
    ∷ copied (λ f m. record m { vote_max = f.vote_max })
    ∷ ensured (λ f. f.vote_logic) (λ m v. record m { vote_logic = v })
    ∷ padded 82 (λ f. f.proposal_description) (λ m v. record m { proposal_description = v })
    ∷ padded 32 (λ f. f.proposal_document_hash) (λ m v. record m { proposal_document_hash = v })
    ∷ copied (λ f m. record m { vote_cut_off_timestamp = f.vote_cut_off_timestamp })
    ∷ copied (λ f m. record m { timestamp = f.timestamp })
    ∷ []

-- The numbers and bytes are in the range of their types.
abbrev pub VoteFormTyped : VoteForm → Type 0
VoteFormTyped f =
    Word 1 f.version
    × IsText f.vote_type
    × Word 1 f.vote_max
    × IsText f.vote_logic
    × Word 8 f.vote_cut_off_timestamp
    × Word 8 f.timestamp

vote_form_steps-Fits :
    (f : VoteForm)
    → VoteFormTyped f
    → Short vote_form_steps f
    → Interface.Fits vote_message_format (built vote_form_steps f new_vote_message)
unfolding vote_form_steps vote_message_format
vote_form_steps-Fits f (t0, t1, t2, t3, t4, t5) (h0, (h1, (h2, (h3, (h4, (h5, (h6, tt))))))) = (
  refl,
  (
    omega arith,
    (
      omega arith,
      (
        omega arith,
        (
          t0,
          (
            fits-pad f.asset_type 3 h0,
            (
              fits-pad f.asset_id 32 h1,
              (
                first_byte-Word f.vote_type t1,
                (
                  fits-pad f.vote_options 16 h3,
                  (
                    t2,
                    (
                      first_byte-Word f.vote_logic t3,
                      (
                        fits-pad f.proposal_description 82 h5,
                        (fits-pad f.proposal_document_hash 32 h6, (t4, (t5, tt))),
                      ),
                    ),
                  ),
                ),
              ),
            ),
          ),
        ),
      ),
    ),
  ),
)

unfoldable pub vote_form : FormOf Code.g3 VoteForm
unfolding vote_form_steps vote_message_codec plain_form codec vote_form_steps-Fits
vote_form =
    plain_form Code.g3 vote_form_steps VoteFormTyped vote_form_steps-Fits (λ f. (refl, refl))
