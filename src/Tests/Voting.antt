-- ===== src/Tests/Voting.antt =====
-- Votes at concrete inputs.
use smart_contract.Prelude.{
  ℕ, ◌%◌, ◌^◌, Bytes, bytes_eq, bytes_key, false, if◌then◌else◌, none, List, [], ◌∷◌, ◌≡◌, refl,
  All, Outcome, ok, arith,
}
use smart_contract.Prelude.Dict.{lookup, insert}
use mathlib.Core.List.{Permᴰ}
use smart_contract.Protocol.RejectionCode
use smart_contract.State.{
  Vote, Ballot, BallotResult, new_vote, new_vote_from_protocol_vote, is_open, can_vote, is_owner,
}
use smart_contract.Voting.Service.{
  count_of, generate_result, is_option, tokens_of, add_ballots, add_ballot, cut, add_values, add_to,
  vote_value, discard,
}
use smart_contract.Voting.Tally.{
  score, IsComplete, shuffled, generate_result-score, generate_result-Perm,
}
use smart_contract.Voting.Cutoff.{can_vote-new_vote}
use smart_contract.Tests.Base.{alice, bob, carol, token, contract}
use smart_contract.Tests.Messages.{vote_message}

abbrev ballot_of : Bytes → Bytes → Ballot
ballot_of address choices = record {
  address = address;
  asset_type = [];
  asset_id = token;
  vote_txn_id = [];
  vote = choices;
  created_at = 0;
}

-- Alice, Bob and Carol, who holds nothing, rank two of the options 1 and 2.
abbrev ballots : List Ballot
ballots = ballot_of alice (1 ∷ 2 ∷ []) ∷ ballot_of bob (2 ∷ 1 ∷ []) ∷ ballot_of carol [] ∷ []

abbrev vote : Vote
vote = record (new_vote 0) {
  asset_id = token;
  vote_options = 1 ∷ 2 ∷ [];
  vote_max = 2;
  vote_logic = 49;
  ballots = ballots;
}

carol_skipped : tokens_of contract vote (ballot_of carol []) ≡ none
unfolding tokens_of lookup bytes_eq
carol_skipped = refl

complete : All (IsComplete contract vote) vote.ballots
complete = (
  λ tokens held. omega arith,
  (λ tokens held. omega arith, (λ tokens held. cc (held, carol_skipped), tt)),
)

generate_result-score_example :
    (result : BallotResult) × (generate_result contract vote ≡ ok result)
    × ((option : ℕ)
        → count_of option result ≡ (
            if is_option option vote.vote_options
            then score contract vote option vote.ballots % 2 ^ 64
            else 0))
generate_result-score_example = generate_result-score contract vote complete

abbrev other_order : List Ballot
other_order = ballot_of bob (2 ∷ 1 ∷ []) ∷ ballot_of alice (1 ∷ 2 ∷ []) ∷ ballot_of carol [] ∷ []

swapped : Permᴰ ballots other_order
swapped = Permᴰ.swap refl refl

generate_result-Perm_example :
    (result result' : BallotResult) × (generate_result contract vote ≡ ok result)
    × (generate_result contract (shuffled contract vote other_order) ≡ ok result')
    × ((option : ℕ) → count_of option result ≡ count_of option result')
generate_result-Perm_example = generate_result-Perm contract vote other_order swapped complete

can_vote-new_vote_example :
    (is_open 500 (new_vote_from_protocol_vote 200 alice vote_message) ≡ false)
    × (can_vote 500 contract (new_vote_from_protocol_vote 200 alice vote_message) (ballot_of bob [])
        ≡ (if is_owner contract bob
            then RejectionCode.vote_closed
            else RejectionCode.unknown_address))
can_vote-new_vote_example = can_vote-new_vote 200 500 alice vote_message contract (ballot_of bob [])

-- By rank, option 1 has 20 of Alice and 5 of Bob, option 2 has 10 of each.
abbrev tally : Outcome BallotResult
tally = generate_result contract vote

counted : tally ≡ ok ((1, 25) ∷ (2, 20) ∷ [])
unfolding generate_result add_ballots add_ballot tokens_of cut add_values add_to vote_value discard
    is_option lookup insert bytes_eq
counted = refl
