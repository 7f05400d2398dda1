-- ===== src/Voting/Service.antt =====
-- `internal/vote/vote_service.go`: the result of a vote from its ballots. A ballot's slice of
-- choices is taken to have no room behind its end, so that cutting it further than it is long is
-- a panic.
use smart_contract.Prelude.{
  ℕ, ◌+◌, ◌-◌, ◌*◌, ◌%◌, ◌^◌, ltb, ◌==◌, Bytes, bytes_eq, bytes_key, byte_key, Bool, false, not,
  ◌&&◌, ◌||◌, if◌then◌else◌, Option, none, some, List, [], ◌∷◌, length, take, Outcome, ok, panic,
  ◌>>=◌,
}
use smart_contract.Prelude.Dict.{Dict, get, lookup, insert}
use smart_contract.Protocol.{vote_logic_weighted}
use smart_contract.State.{Contract, Vote, Ballot, BallotResult, is_open, is_some}

-- `result[option]`, 0 where the option has no count.
abbrev pub count_of : ℕ → BallotResult → ℕ
count_of option result = elim (lookup option result) [ none ↦ 0 | some n ↦ n ]

-- The balance that a ballot votes with; `none` is a ballot that is skipped.
unfoldable pub tokens_of : Contract → Vote → Ballot → Option ℕ
tokens_of c vo ballot =
    if not (bytes_eq vo.asset_id []) && not (bytes_eq ballot.asset_id vo.asset_id)
    then none
    else elim (get ballot.asset_id c.assets) [
      | none ↦ none
      | some asset ↦ elim (get ballot.address asset.holdings) [
        | none ↦ none
        | some holding ↦ if holding.balance == 0 then none else some holding.balance
      ]
    ]

-- `voteValue` of the choice at index `i`, which is below `VoteMax`.
unfoldable pub vote_value : Vote → ℕ → ℕ → ℕ
vote_value vo tokens i =
    if vo.vote_logic == vote_logic_weighted then ((vo.vote_max - i) * tokens) % 2 ^ 64 else tokens

-- `result[val] += voteValue`, in `uint64`.
unfoldable pub add_to : ℕ → ℕ → BallotResult → BallotResult
add_to val value result = insert val ((count_of val result + value) % 2 ^ 64) result

-- The loop over the choices of a ballot.
unfoldable pub add_values : Vote → ℕ → ℕ → Bytes → BallotResult → BallotResult
add_values vo tokens i [] result = result
add_values vo tokens i (val ∷ values) result =
    add_values vo tokens (i + 1) values (add_to val (vote_value vo tokens i) result)

-- `ballot.Vote[:vo.VoteMax]`
unfoldable pub cut : ℕ → Bytes → Outcome Bytes
cut n choices = if ltb (length choices) n then panic else ok (take n choices)

unfoldable pub add_ballot : Contract → Vote → Ballot → BallotResult → Outcome BallotResult
unfolding cut
add_ballot c vo ballot result = elim (tokens_of c vo ballot) [
  | none ↦ ok result
  | some tokens ↦ do values ← cut vo.vote_max ballot.vote; ok (add_values vo tokens 0 values result)
]

-- The loop over the ballots.
unfoldable pub add_ballots : Contract → Vote → List Ballot → BallotResult → Outcome BallotResult
add_ballots c vo [] result = ok result
add_ballots c vo (ballot ∷ ballots) result = do
  next ← add_ballot c vo ballot result
  add_ballots c vo ballots next

-- The search for `k` among the options.
unfoldable pub is_option : ℕ → Bytes → Bool
is_option k [] = false
is_option k (o ∷ options) = o == k || is_option k options

-- The loop that deletes the keys that are no options.
unfoldable pub discard : Bytes → BallotResult → BallotResult
discard options [] = []
discard options ((k, n) ∷ result) =
    let rest = discard options result in if is_option k options then (k, n) ∷ rest else rest

unfoldable pub generate_result : Contract → Vote → Outcome BallotResult
generate_result c vo = do
  result ← add_ballots c vo vo.ballots []
  ok (discard vo.vote_options result)

-- A vote that has closed and has no result yet.
unfoldable pub is_due : ℕ → Vote → Bool
is_due nano vo = not (is_some vo.result) && not (is_open nano vo)

-- The loop over the votes of a contract.
unfoldable pub result_votes : ℕ → Contract → Dict Bytes Vote → Outcome (List Vote)
result_votes nano c [] = ok []
result_votes nano c ((k, vo) ∷ votes) =
    let later = result_votes nano c votes in
    if is_due nano vo
    then (do
      result ← generate_result c vo
      rest ← later
      ok (record vo { result = some result } ∷ rest))
    else later

unfoldable pub handle : ℕ → Contract → Outcome (List Vote)
handle nano c = elim c.votes [ none ↦ ok [] | some votes ↦ result_votes nano c votes ]
