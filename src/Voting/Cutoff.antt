-- ===== src/Voting/Cutoff.antt =====
-- The cut-off of a vote that is built from a message.
use smart_contract.Prelude.{ℕ, Bytes, bytes_key, false, if◌then◌else◌, ◌≡◌, arith}
use smart_contract.Protocol.{VoteMessage}
use smart_contract.Protocol.RejectionCode
use smart_contract.State.{
  Contract, Ballot, new_vote_from_protocol_vote, is_open, can_vote, is_owner,
}

-- A vote that `NewVoteFromProtocolVote` builds is open at no time, whatever cut-off the message has, so
-- that no ballot on it is allowed.
pub can_vote-new_vote :
    (nano at : ℕ) (address : Bytes) (m : VoteMessage) (c : Contract) (ballot : Ballot)
    → (is_open at (new_vote_from_protocol_vote nano address m) ≡ false)
      × (can_vote at c (new_vote_from_protocol_vote nano address m) ballot ≡ (
          if is_owner c ballot.address
          then RejectionCode.vote_closed
          else RejectionCode.unknown_address))
unfolding can_vote is_open new_vote_from_protocol_vote
can_vote-new_vote nano at address m c ballot = (ground arith, ground arith)
