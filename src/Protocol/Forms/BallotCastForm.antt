-- ===== src/Protocol/Forms/BallotCastForm.antt =====
-- `BallotCastForm` in `pkg/protocol/protocol_forms.go`, and that the message it builds fits its format.
use smart_contract.Prelude.{ℕ, refl, Bytes, List, [], ◌∷◌, arith}
use smart_contract.Protocol.Codes.{Code}
use smart_contract.Protocol.Requests.{BallotCast}
use smart_contract.Protocol.Codec.BallotCast.{
  ballot_cast_format, ballot_cast_codec, new_ballot_cast,
}
use smart_contract.Protocol.Codec.Interface
use smart_contract.Protocol.Codec.Laws.{Word}
use smart_contract.Protocol.OpReturn.{codec}
use smart_contract.Protocol.Forms.{Assignment, padded, copied}
use smart_contract.Protocol.Forms.Laws.{fits-pad, Short, built}
use smart_contract.Protocol.Forms.Interface.{FormOf, plain_form}

pub record BallotCastForm : Type 0 where
  pub version : ℕ
  pub asset_type : Bytes
  pub asset_id : Bytes
  pub vote_txn_id : Bytes
  pub vote : Bytes

-- The assignments of `BuildMessage`.
unfoldable pub ballot_cast_form_steps : List (Assignment BallotCastForm BallotCast)
ballot_cast_form_steps =
    copied (λ f m. record m { version = f.version })
    ∷ padded 3 (λ f. f.asset_type) (λ m v. record m { asset_type = v })
    ∷ padded 32 (λ f. f.asset_id) (λ m v. record m { asset_id = v })
    ∷ padded 32 (λ f. f.vote_txn_id) (λ m v. record m { vote_txn_id = v })
    ∷ padded 16 (λ f. f.vote) (λ m v. record m { vote = v })
    ∷ []

-- The numbers and bytes are in the range of their types.
abbrev pub BallotCastFormTyped : BallotCastForm → Type 0
BallotCastFormTyped f = Word 1 f.version

ballot_cast_form_steps-Fits :
    (f : BallotCastForm)
    → BallotCastFormTyped f
    → Short ballot_cast_form_steps f
    → Interface.Fits ballot_cast_format (built ballot_cast_form_steps f new_ballot_cast)
unfolding ballot_cast_form_steps ballot_cast_format
ballot_cast_form_steps-Fits f t0 (h0, (h1, (h2, (h3, tt)))) = (
  refl,
  (
    omega arith,
    (
      omega arith,
      (
        omega arith,
        (
          t0,
          (
            fits-pad f.asset_type 3 h0,
            (
              fits-pad f.asset_id 32 h1,
              (fits-pad f.vote_txn_id 32 h2, (fits-pad f.vote 16 h3, tt)),
            ),
          ),
        ),
      ),
    ),
  ),
)

unfoldable pub ballot_cast_form : FormOf Code.g4 BallotCastForm
unfolding ballot_cast_form_steps ballot_cast_codec plain_form codec ballot_cast_form_steps-Fits
ballot_cast_form =
    plain_form Code.g4 ballot_cast_form_steps BallotCastFormTyped ballot_cast_form_steps-Fits
      (λ f. (refl, refl))
