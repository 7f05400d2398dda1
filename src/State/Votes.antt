-- ===== src/State/Votes.antt =====
-- `vote.go`, `ballot.go` and `ballot_result.go`.
use smart_contract.Prelude.{ℕ, ◌^◌, Bytes, Bool, false, ltb, if◌then◌else◌, Option, none, List, []}
use smart_contract.Prelude.Dict.{Dict}
use smart_contract.Protocol.{BallotCast, VoteMessage}
use smart_contract.Btcutil.{Btcutil}
use smart_contract.TxBuilder.Output.{Utxo}

pub record Ballot : Type 0 where
  pub address : Bytes
  pub asset_type : Bytes
  pub asset_id : Bytes
  pub vote_txn_id : Bytes
  pub vote : Bytes
  pub created_at : ℕ

abbrev pub BallotResult : Type 0
BallotResult = Dict ℕ ℕ

-- `vote_cut_off_timestamp` is the bit pattern of an `int64`.
pub record Vote : Type 0 where
  pub address : Bytes
  pub asset_type : Bytes
  pub asset_id : Bytes
  pub vote_type : ℕ
  pub vote_options : Bytes
  pub vote_max : ℕ
  pub vote_logic : ℕ
  pub proposal_description : Bytes
  pub proposal_document_hash : Bytes
  pub vote_cut_off_timestamp : ℕ
  pub ref_txn_id_hash : Bytes
  pub ballots : List Ballot
  pub utxo : Utxo
  pub result : Option BallotResult
  pub created_at : ℕ

module _ {Addr : Type 0} ⦃b : Btcutil Addr⦄ where
  unfoldable pub new_ballot_from_ballot_cast : ℕ → Addr → BallotCast → Ballot
  new_ballot_from_ballot_cast nano address m = record {
    address = b.encode_address address;
    asset_type = m.asset_type;
    asset_id = m.asset_id;
    vote_txn_id = m.vote_txn_id;
    vote = m.vote;
    created_at = nano;
  }

abbrev pub no_utxo : Utxo
no_utxo = record { hash = []; pk_script = []; index = 0; value = 0 }

abbrev pub new_vote : ℕ → Vote
new_vote nano = record {
  address = [];
  asset_type = [];
  asset_id = [];
  vote_type = 0;
  vote_options = [];
  vote_max = 0;
  vote_logic = 0;
  proposal_description = [];
  proposal_document_hash = [];
  vote_cut_off_timestamp = 0;
  ref_txn_id_hash = [];
  ballots = [];
  utxo = no_utxo;
  result = none;
  created_at = nano;
}

-- The last two assignments of the source read `v`, the new vote, and not `m`.
unfoldable pub new_vote_from_protocol_vote : ℕ → Bytes → VoteMessage → Vote
new_vote_from_protocol_vote nano address m =
    let v = new_vote nano in
    record v {
      address = address;
      asset_type = m.asset_type;
      asset_id = m.asset_id;
      vote_type = m.vote_type;
      vote_options = m.vote_options;
      vote_max = m.vote_max;
      vote_logic = m.vote_logic;
      proposal_description = m.proposal_description;
      proposal_document_hash = v.proposal_document_hash;
      vote_cut_off_timestamp = v.vote_cut_off_timestamp;
    }

-- `ts.UnixNano() < v.VoteCutOffTimestamp` at a clock after 1970; a cut-off from 2 ^ 63 on is a
-- negative `int64`.
unfoldable pub is_open : ℕ → Vote → Bool
is_open nano v =
    if ltb v.vote_cut_off_timestamp (2 ^ 63) then ltb nano v.vote_cut_off_timestamp else false
