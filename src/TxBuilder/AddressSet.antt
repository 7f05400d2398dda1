-- ===== src/TxBuilder/AddressSet.antt =====
-- `address_set.go` and `UTXOs.UniqueAddresses`: the addresses of a list, each once, in order.
use smart_contract.Prelude.{
  bytes_eq, bytes_eq_iff, Bool, true, false, ◌||◌, if◌then◌else◌, Bool-cases, List, [], ◌∷◌, ◌++◌,
  ◌≡◌, refl, inl, inr, arith, Outcome, ok, ◌>>=◌,
}
use smart_contract.Btcutil.{Btcutil}
use smart_contract.TxBuilder.Output.{Utxo, addresses}

module _ {Addr : Type 0} ⦃b : Btcutil Addr⦄ where
  -- `in`: an address with the same text is among the addresses.
  unfoldable pub is_in : List Addr → Addr → Bool
  is_in [] addr = false
  is_in (address ∷ more) addr = bytes_eq (b.to_string address) (b.to_string addr) || is_in more addr

  -- The loop of `Set`, from the addresses found so far on.
  unfoldable pub collect : List Addr → List Addr → List Addr
  unfolding is_in
  collect unique [] = unique
  collect unique (addr ∷ more) =
      if is_in unique addr then collect unique more else collect (unique ++ addr ∷ []) more

  unfoldable pub set : List Addr → List Addr
  set addrs = collect [] addrs

  unfoldable pub unique_addresses : List Utxo → Outcome (List Addr)
  unique_addresses utxos = do addrs ← addresses utxos; ok (set addrs)

  -- No address has the text of an earlier one.
  unfoldable pub is_distinct : List Addr → List Addr → Bool
  is_distinct seen [] = true
  is_distinct seen (addr ∷ more) =
      if is_in seen addr then false else is_distinct (seen ++ addr ∷ []) more

  is_in-append :
      (xs ys : List Addr) (addr : Addr) → is_in (xs ++ ys) addr ≡ (is_in xs addr || is_in ys addr)
  unfolding is_in
  is_in-append [] ys addr = refl
  is_in-append (x ∷ xs) ys addr = ground (arith, is_in-append xs ys addr)

  -- Only the text of an address counts.
  is_in-same :
      (xs : List Addr) (x y : Addr)
      → bytes_eq (b.to_string x) (b.to_string y) ≡ true
      → is_in xs x ≡ is_in xs y
  unfolding is_in
  is_in-same [] x y e = refl
  is_in-same (z ∷ xs) x y e =
      ground (arith, is_in-same xs x y e, (bytes_eq_iff (b.to_string x) (b.to_string y)).0 e)

  is_in-collect :
      (unique more : List Addr) (addr : Addr)
      → is_in (collect unique more) addr ≡ (is_in unique addr || is_in more addr)
  unfolding collect is_in
  is_in-collect unique [] addr = ground arith
  is_in-collect unique (x ∷ more) addr =
      let kept = is_in-collect unique more addr in
      let added = is_in-collect (unique ++ x ∷ []) more addr in
      let front = is_in-append unique (x ∷ []) addr in
      elim (Bool-cases (bytes_eq (b.to_string x) (b.to_string addr))) [
        | inl same ↦ ground (arith, same, kept, added, front, is_in-same unique x addr same)
        | inr apart ↦ ground (arith, apart, kept, added, front)
      ]

  is_distinct-append :
      (seen xs : List Addr) (addr : Addr)
      → is_distinct seen xs ≡ true
      → is_in seen addr ≡ false
      → is_in xs addr ≡ false
      → is_distinct seen (xs ++ addr ∷ []) ≡ true
  unfolding is_distinct is_in
  is_distinct-append seen [] addr h unseen fresh = ground (arith, unseen)
  is_distinct-append seen (x ∷ xs) addr h unseen fresh =
      let (first, others) : (is_in seen x ≡ false) × (is_distinct (seen ++ x ∷ []) xs ≡ true) =
        (ground (arith, h), ground (arith, h)) in
      let later : is_in (seen ++ x ∷ []) addr ≡ false =
        ground (arith, unseen, fresh, is_in-append seen (x ∷ []) addr) in
      ground (
        arith,
        first,
        is_distinct-append (seen ++ x ∷ []) xs addr others later (ground (arith, fresh)),
      )

  distinct-collect :
      (unique more : List Addr)
      → is_distinct [] unique ≡ true
      → is_distinct [] (collect unique more) ≡ true
  unfolding collect is_in
  distinct-collect unique [] h = h
  distinct-collect unique (x ∷ more) h = elim (Bool-cases (is_in unique x)) [
    | inl known ↦ ground (arith, known, distinct-collect unique more h)
    | inr fresh ↦ ground (
      arith,
      fresh,
      distinct-collect (unique ++ x ∷ []) more (is_distinct-append [] unique x h refl fresh),
    )
  ]

  -- The set of some addresses has each text once, and those texts that the addresses have.
  pub set-distinct :
      (addrs : List Addr)
      → (is_distinct [] (set addrs) ≡ true)
        × ((addr : Addr) → is_in (set addrs) addr ≡ is_in addrs addr)
  unfolding set is_in is_distinct
  set-distinct addrs = (distinct-collect [] addrs refl, λ addr. is_in-collect [] addrs addr)
