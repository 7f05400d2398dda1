-- ===== src/Protocol/Forms/BallotCountedForm.antt =====
-- `BallotCountedForm` in `pkg/protocol/protocol_forms.go`, and that the message it builds fits its
-- format.
use smart_contract.Prelude.{ℕ, refl, Bytes, List, [], ◌∷◌, arith}
use smart_contract.Protocol.Codes.{Code}
use smart_contract.Protocol.Records.{BallotCounted}
use smart_contract.Protocol.Codec.BallotCounted.{
  ballot_counted_format, ballot_counted_codec, new_ballot_counted,
}
use smart_contract.Protocol.Codec.Interface
use smart_contract.Protocol.Codec.Laws.{Word}
use smart_contract.Protocol.OpReturn.{codec}
use smart_contract.Protocol.Forms.{Assignment, padded, copied}
use smart_contract.Protocol.Forms.Laws.{fits-pad, Short, built}
use smart_contract.Protocol.Forms.Interface.{FormOf, plain_form}

pub record BallotCountedForm : Type 0 where
  pub version : ℕ
  pub asset_type : Bytes
  pub asset_id : Bytes
  pub vote_txn_id : Bytes
  pub vote : Bytes
  pub timestamp : ℕ

-- The assignments of `BuildMessage`.
unfoldable pub ballot_counted_form_steps : List (Assignment BallotCountedForm BallotCounted)
ballot_counted_form_steps =
    copied (λ f m. record m { version = f.version })
    ∷ padded 3 (λ f. f.asset_type) (λ m v. record m { asset_type = v })
    ∷ padded 32 (λ f. f.asset_id) (λ m v. record m { asset_id = v })
    ∷ padded 32 (λ f. f.vote_txn_id) (λ m v. record m { vote_txn_id = v })
    ∷ padded 16 (λ f. f.vote) (λ m v. record m { vote = v })
    ∷ copied (λ f m. record m { timestamp = f.timestamp })
    ∷ []

-- The numbers and bytes are in the range of their types.
abbrev pub BallotCountedFormTyped : BallotCountedForm → Type 0
BallotCountedFormTyped f = Word 1 f.version × Word 8 f.timestamp

ballot_counted_form_steps-Fits :
    (f : BallotCountedForm)
    → BallotCountedFormTyped f
    → Short ballot_counted_form_steps f
    → Interface.Fits ballot_counted_format (built ballot_counted_form_steps f new_ballot_counted)
unfolding ballot_counted_form_steps ballot_counted_format
ballot_counted_form_steps-Fits f (t0, t1) (h0, (h1, (h2, (h3, tt)))) = (
  refl,
  (
    omega arith,
    (
      omega arith,
      (
        omega arith,
        (
          t0,
          (
            fits-pad f.asset_type 3 h0,
            (
              fits-pad f.asset_id 32 h1,
              (fits-pad f.vote_txn_id 32 h2, (fits-pad f.vote 16 h3, (t1, tt))),
            ),
          ),
        ),
      ),
    ),
  ),
)

unfoldable pub ballot_counted_form : FormOf Code.g5 BallotCountedForm
unfolding ballot_counted_form_steps ballot_counted_codec plain_form codec
    ballot_counted_form_steps-Fits
ballot_counted_form =
    plain_form Code.g5 ballot_counted_form_steps BallotCountedFormTyped
      ballot_counted_form_steps-Fits (λ f. (refl, refl))
