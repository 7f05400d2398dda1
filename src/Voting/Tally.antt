-- ===== src/Voting/Tally.antt =====
-- What a vote's result says: the count of each option, whatever the order of the ballots.
use mathlib.Core.List.{Permᴰ}
use smart_contract.Prelude.{
  ℕ, ◌+◌, ◌%◌, ◌^◌, ◌≤◌, ◌==◌, ==_iff, Bytes, bytes_key, byte_key, if◌then◌else◌, none, some, List,
  [], ◌∷◌, ◌≡◌, refl, ◌∙◌, length, take, All, ok, arith, sym, subst, Option-cases, inl, inr,
}
use smart_contract.Prelude.Dict.{lookup, lookup-insert}
use smart_contract.State.{Contract, Vote, Ballot, BallotResult}
use smart_contract.Voting.Service.{
  count_of, tokens_of, vote_value, add_to, add_values, add_ballot, add_ballots, is_option, discard,
  generate_result,
}

-- What the choices of a ballot from index `i` on are worth to an option.
unfoldable pub points : Vote → ℕ → ℕ → ℕ → Bytes → ℕ
points vo tokens option i [] = 0
points vo tokens option i (val ∷ values) =
    (if option == val then vote_value vo tokens i else 0) + points vo tokens option (i + 1) values

-- What a ballot is worth to an option.
unfoldable pub worth : Contract → Vote → ℕ → Ballot → ℕ
worth c vo option ballot = elim (tokens_of c vo ballot) [
  | none ↦ 0
  | some tokens ↦ points vo tokens option 0 (take vo.vote_max ballot.vote)
]

-- What all ballots are worth to an option.
unfoldable pub score : Contract → Vote → ℕ → List Ballot → ℕ
score c vo option [] = 0
score c vo option (ballot ∷ ballots) = worth c vo option ballot + score c vo option ballots

-- A ballot that is skipped or has a choice for each place.
abbrev pub IsComplete : Contract → Vote → Ballot → Type 0
IsComplete c vo ballot =
    (tokens : ℕ) → tokens_of c vo ballot ≡ some tokens → vo.vote_max ≤ length ballot.vote

module _ (c : Contract) (vo : Vote) (option : ℕ) where
  count_of-add_to :
      (val value : ℕ) (result : BallotResult)
      → count_of option (add_to val value result)
        ≡ (if option == val then (count_of val result + value) % 2 ^ 64 else count_of option result)
  unfolding add_to
  count_of-add_to val value result =
      ground (arith, lookup-insert option val ((count_of val result + value) % 2 ^ 64) result)

  count_of-add_values :
      (tokens i : ℕ) (values : Bytes) (result : BallotResult) (n : ℕ)
      → count_of option result ≡ n % 2 ^ 64
      → count_of option (add_values vo tokens i values result)
        ≡ (n + points vo tokens option i values) % 2 ^ 64
  unfolding add_values points
  count_of-add_values tokens i [] result n h = ground arith
  count_of-add_values tokens i (val ∷ values) result n h =
      let value = vote_value vo tokens i in
      let more = if option == val then value else 0 in
      count_of-add_values tokens (i + 1) values (add_to val value result) (n + more)
        (ground (arith, count_of-add_to val value result, ==_iff option val))
      ∙ omega arith

  count_of-add_ballot :
      (ballot : Ballot) (result : BallotResult) (n : ℕ)
      → IsComplete c vo ballot
      → count_of option result ≡ n % 2 ^ 64
      → (next : BallotResult) × (add_ballot c vo ballot result ≡ ok next)
        × (count_of option next ≡ (n + worth c vo option ballot) % 2 ^ 64)
  unfolding add_ballot worth
  count_of-add_ballot ballot result n complete h = elim (Option-cases (tokens_of c vo ballot)) [
    | inl none_held ↦ (result, ground arith, ground arith)
    | inr (tokens, held) ↦
        let values = take vo.vote_max ballot.vote in
        (
          add_values vo tokens 0 values result,
          ground (arith, complete tokens held),
          ground (arith, count_of-add_values tokens 0 values result n h),
        )
  ]

  count_of-add_ballots :
      (ballots : List Ballot) (result : BallotResult) (n : ℕ)
      → All (IsComplete c vo) ballots
      → count_of option result ≡ n % 2 ^ 64
      → (final : BallotResult) × (add_ballots c vo ballots result ≡ ok final)
        × (count_of option final ≡ (n + score c vo option ballots) % 2 ^ 64)
  unfolding add_ballots score
  count_of-add_ballots [] result n complete h = (result, refl, ground arith)
  count_of-add_ballots (ballot ∷ ballots) result n (first, others) h =
      let (next, e1, h1) = count_of-add_ballot ballot result n first h in
      let (final, e2, h2) =
        count_of-add_ballots ballots next (n + worth c vo option ballot) others h1 in
      (final, rw e1 e2, h2 ∙ omega arith)

  count_of-discard :
      (options : Bytes) (result : BallotResult)
      → count_of option (discard options result)
        ≡ (if is_option option options then count_of option result else 0)
  unfolding discard lookup
  count_of-discard options [] = ground arith
  count_of-discard options ((k, n) ∷ result) =
      ground (arith, count_of-discard options result, ==_iff option k)

-- Where every ballot that counts has a choice for each place, the vote has a result. In it each
-- option has the sum of what the ballots are worth to it in `uint64`, and what is no option has 0.
pub generate_result-score :
    (c : Contract) (vo : Vote)
    → All (IsComplete c vo) vo.ballots
    → (result : BallotResult) × (generate_result c vo ≡ ok result)
      × ((option : ℕ)
          → count_of option result ≡ (
              if is_option option vo.vote_options
              then score c vo option vo.ballots % 2 ^ 64
              else 0))
unfolding generate_result lookup
generate_result-score c vo complete =
    let (counted, e, h0) = count_of-add_ballots c vo 0 vo.ballots [] 0 complete (ground arith) in
    (
      discard vo.vote_options counted,
      rw e refl,
      λ option.
          let (same, e', h) =
            count_of-add_ballots c vo option vo.ballots [] 0 complete (ground arith) in
          ground (arith, count_of-discard c vo option vo.vote_options counted),
    )

-- The order of the ballots does not matter to what they are worth.
score-Perm :
    (c : Contract) (vo : Vote) (option : ℕ) {ballots others : List Ballot}
    → Permᴰ ballots others
    → score c vo option ballots ≡ score c vo option others
unfolding score
score-Perm c vo option Permᴰ.nil = refl
score-Perm c vo option (Permᴰ.cons e p) = ground (arith, e, score-Perm c vo option p)
score-Perm c vo option (Permᴰ.swap e1 e2) = rw (e1, e2) (omega arith)
score-Perm c vo option (Permᴰ.trans p q) = score-Perm c vo option p ∙ score-Perm c vo option q

All-Perm : {A : Type 0} (P : A → Type 0) {xs ys : List A} → Permᴰ xs ys → All P xs → All P ys
All-Perm P Permᴰ.nil h = h
All-Perm P (Permᴰ.cons e p) (h, hs) = (subst P e h, All-Perm P p hs)
All-Perm P (Permᴰ.swap e1 e2) (h1, (h2, hs)) = (subst P e2 h2, (subst P e1 h1, hs))
All-Perm P (Permᴰ.trans p q) h = All-Perm P q (All-Perm P p h)

module _ (c : Contract) (vo : Vote) (others : List Ballot) where
  -- The vote with its ballots in another order.
  abbrev pub shuffled : Vote
  shuffled = record vo { ballots = others }

  tokens_of-shuffled : (ballot : Ballot) → tokens_of c shuffled ballot ≡ tokens_of c vo ballot
  unfolding tokens_of
  tokens_of-shuffled ballot = refl

  points-shuffled :
      (tokens option i : ℕ) (values : Bytes)
      → points shuffled tokens option i values ≡ points vo tokens option i values
  unfolding points vote_value
  points-shuffled tokens option i [] = refl
  points-shuffled tokens option i (val ∷ values) =
      rw (points-shuffled tokens option (i + 1) values) refl

  worth-shuffled :
      (option : ℕ) (ballot : Ballot) → worth c shuffled option ballot ≡ worth c vo option ballot
  unfolding worth
  worth-shuffled option ballot = elim (Option-cases (tokens_of c vo ballot)) [
    | inl none_held ↦ ground (arith, tokens_of-shuffled ballot)
    | inr (tokens, held) ↦ ground (
      arith,
      tokens_of-shuffled ballot,
      points-shuffled tokens option 0 (take vo.vote_max ballot.vote),
    )
  ]

  score-shuffled :
      (option : ℕ) (ballots : List Ballot)
      → score c shuffled option ballots ≡ score c vo option ballots
  unfolding score
  score-shuffled option [] = refl
  score-shuffled option (ballot ∷ ballots) =
      rw (worth-shuffled option ballot, score-shuffled option ballots) refl

  All-shuffled :
      (ballots : List Ballot) → All (IsComplete c vo) ballots → All (IsComplete c shuffled) ballots
  All-shuffled [] h = h
  All-shuffled (ballot ∷ ballots) (h, hs) =
      (λ tokens held. h tokens (sym (tokens_of-shuffled ballot) ∙ held), All-shuffled ballots hs)

  -- Where every ballot that counts has a choice for each place, a vote and the vote with the same
  -- ballots in another order both have a result, and the two results have the same count for every
  -- option.
  pub generate_result-Perm :
      Permᴰ vo.ballots others
      → All (IsComplete c vo) vo.ballots
      → (result result' : BallotResult) × (generate_result c vo ≡ ok result)
        × (generate_result c shuffled ≡ ok result')
        × ((option : ℕ) → count_of option result ≡ count_of option result')
  generate_result-Perm p complete =
      let (result, e, counts) = generate_result-score c vo complete in
      let (result', e', counts') =
        generate_result-score c shuffled
          (All-shuffled others (All-Perm (IsComplete c vo) p complete)) in
      (
        result,
        result',
        e,
        e',
        λ option. ground (
          arith,
          counts option,
          counts' option,
          score-shuffled option others,
          score-Perm c vo option p,
        ),
      )
