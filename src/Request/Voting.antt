-- ===== src/Request/Voting.antt =====
-- `initiative_handler.go`, `referendum_handler.go` and `ballot_cast_handler.go`. The service does
-- not register these three handlers.
use smart_contract.Prelude.{
  ℕ, bytes_key, none, some, [], ◌∷◌, ◌++◌, Outcome, Error, ok, ◌>>=◌, index, or_err,
}
use smart_contract.Prelude.Dict.{get, put}
use smart_contract.Protocol.{
  Message, Initiative, Referendum, VoteMessage, new_vote_message, dust_limit,
}
use smart_contract.Btcutil.{Btcutil}
use smart_contract.Wire.{Wire}
use smart_contract.TxBuilder.{pay_to, new_utxo_from_tx}
use smart_contract.State.{Contract, new_vote_from_protocol_vote, new_ballot_from_ballot_cast}
use smart_contract.Request.Defs.{
  ContractRequest, ContractResponse, as_initiative, as_referendum, as_ballot_cast,
}

unfoldable pub initiative_vote : ℕ → Initiative → VoteMessage
initiative_vote now m = record new_vote_message {
  asset_type = m.asset_type;
  asset_id = m.asset_id;
  vote_type = m.vote_type;
  vote_options = m.vote_options;
  vote_max = m.vote_max;
  vote_logic = m.vote_logic;
  proposal_description = m.proposal_description;
  proposal_document_hash = m.proposal_document_hash;
  vote_cut_off_timestamp = m.vote_cut_off_timestamp;
  timestamp = now;
}

unfoldable pub referendum_vote : ℕ → Referendum → VoteMessage
referendum_vote now m = record new_vote_message {
  asset_type = m.asset_type;
  asset_id = m.asset_id;
  vote_type = m.vote_type;
  vote_options = m.vote_options;
  vote_max = m.vote_max;
  vote_logic = m.vote_logic;
  proposal_description = m.proposal_description;
  proposal_document_hash = m.proposal_document_hash;
  vote_cut_off_timestamp = m.vote_cut_off_timestamp;
  timestamp = now;
}

module _ {Addr MsgTx : Type 0} ⦃b : Btcutil Addr⦄ ⦃w : Wire MsgTx⦄ where
  -- The vote is stored under `v.RefTxnIDHash`, which `NewVoteFromProtocolVote` leaves empty.
  unfoldable pub add_vote : ℕ → VoteMessage → ContractRequest Addr MsgTx → Outcome Contract
  add_vote nano vote r = do
    sender ← index r.senders 0
    let v = new_vote_from_protocol_vote nano (b.encode_address sender) vote
    utxo ← new_utxo_from_tx r.tx 1
    votes ← put v.ref_txn_id_hash (record v { utxo = utxo }) r.contract.votes
    ok (let c = r.contract in record c { votes = votes })

  unfoldable pub handle_initiative :
      ℕ → ℕ → ContractRequest Addr MsgTx → Outcome (ContractResponse Addr)
  unfolding add_vote
  handle_initiative now nano r = do
    initiative ← or_err (as_initiative r.m) Error.wrong_type
    let vote = initiative_vote now initiative
    c ← add_vote nano vote r
    issuer ← or_err (b.decode_address c.issuer_address) Error.external
    ok (record {
      contract = c;
      message = some (Message.vote vote);
      outs = pay_to issuer dust_limit ∷ [];
      change_address = none;
    })

  unfoldable pub handle_referendum :
      ℕ → ℕ → ContractRequest Addr MsgTx → Outcome (ContractResponse Addr)
  unfolding add_vote
  handle_referendum now nano r = do
    referendum ← or_err (as_referendum r.m) Error.wrong_type
    let vote = referendum_vote now referendum
    c ← add_vote nano vote r
    ok (record {
      contract = c;
      message = some (Message.vote vote);
      outs = [];
      change_address = none;
    })

module _ {Addr MsgTx : Type 0} ⦃b : Btcutil Addr⦄ where
  unfoldable pub handle_ballot_cast :
      ℕ → ContractRequest Addr MsgTx → Outcome (ContractResponse Addr)
  handle_ballot_cast nano r = do
    ballot_cast ← or_err (as_ballot_cast r.m) Error.wrong_type
    vote ← or_err (get ballot_cast.vote_txn_id r.contract.votes) Error.vote_not_found
    sender ← index r.senders 0
    let ballot = new_ballot_from_ballot_cast nano sender ballot_cast
    votes ←
        put ballot_cast.vote_txn_id (record vote { ballots = vote.ballots ++ ballot ∷ [] })
          r.contract.votes
    ok (record {
      contract = let c = r.contract in record c { votes = votes };
      message = none;
      outs = [];
      change_address = none;
    })
