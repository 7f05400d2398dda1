-- ===== src/Ledger/Balance.antt =====
-- The balances of a contract, and how the response handlers of `internal/response` set them.
use smart_contract.Prelude.{
  ℕ, ◌+◌, Bytes, bytes_eq, bytes_eq_iff, bytes_key, true, if◌then◌else◌, Option, none, some, List,
  [], ◌∷◌, ◌≡◌, refl, ◌≢◌, ok, arith,
}
use smart_contract.Prelude.Dict.{Dict, get, lookup, insert, lookup-insert}
use smart_contract.Btcutil.{Btcutil}
use smart_contract.TxBuilder.{TxOutput}
use smart_contract.State.{Asset, Holding, Contract}
use smart_contract.Inspector.{Transaction}
use smart_contract.Request.Transfer.{balance_or_zero}
use smart_contract.Response.Handlers.{holding_or_new, clear_expired, set_balances}

-- The holding of an address in an asset of a contract.
abbrev pub holding_of : Contract → Bytes → Bytes → Option Holding
holding_of c key addr = elim (get key c.assets) [
  | none ↦ none
  | some asset ↦ get addr asset.holdings
]

-- The balance of an address in an asset of a contract, 0 if it has no holding.
abbrev pub balance_of : Contract → Bytes → Bytes → ℕ
balance_of c key addr = balance_or_zero (holding_of c key addr)

-- The sum of all balances of a map of holdings.
unfoldable pub supply : Dict Bytes Holding → ℕ
supply [] = 0
supply ((k, h) ∷ d) = h.balance + supply d

pub bytes_eq_refl : (a : Bytes) → bytes_eq a a ≡ true
bytes_eq_refl a = (bytes_eq_iff a a).1 refl

pub balance-clear_expired : (now : ℕ) (h : Holding) → (clear_expired now h).balance ≡ h.balance
unfolding clear_expired
balance-clear_expired now h = ground arith

pub supply-insert :
    (k : Bytes) (h : Holding) (d : Dict Bytes Holding)
    → supply (insert k h d) + balance_or_zero (lookup k d) ≡ supply d + h.balance
unfolding supply insert lookup
supply-insert k h [] = omega arith
supply-insert k h ((j, g) ∷ d) = ground (arith, supply-insert k h d)

-- The contract after two holdings of an asset were set.
abbrev pub with_holdings :
    Contract → Bytes → Asset → Dict Bytes Asset → Dict Bytes Holding → Contract
with_holdings c key asset kept hs = record c {
  assets = some (insert key (record asset { holdings = some hs }) kept);
}

pub get-with_holdings :
    (c : Contract) (key : Bytes) (asset : Asset) (kept : Dict Bytes Asset) (hs : Dict Bytes Holding)
    → get key (with_holdings c key asset kept hs).assets
      ≡ some (record asset { holdings = some hs })
get-with_holdings c key asset kept hs =
    ground
      (arith, lookup-insert key key (record asset { holdings = some hs }) kept, bytes_eq_refl key)

pub holding_of-with_holdings :
    (c : Contract) (key : Bytes) (asset : Asset) (kept : Dict Bytes Asset) (hs : Dict Bytes Holding)
    (addr : Bytes)
    → holding_of (with_holdings c key asset kept hs) key addr ≡ lookup addr hs
holding_of-with_holdings c key asset kept hs addr =
    ground
      (arith, lookup-insert key key (record asset { holdings = some hs }) kept, bytes_eq_refl key)

-- The sum of all balances of an asset of a contract.
abbrev pub supply_of : Contract → Bytes → ℕ
supply_of c key = elim (get key c.assets) [
  | none ↦ 0
  | some asset ↦ elim asset.holdings [ none ↦ 0 | some hs ↦ supply hs ]
]

pub supply_of-with_holdings :
    (c : Contract) (key : Bytes) (asset : Asset) (kept : Dict Bytes Asset) (hs : Dict Bytes Holding)
    → supply_of (with_holdings c key asset kept hs) key ≡ supply hs
supply_of-with_holdings c key asset kept hs =
    ground
      (arith, lookup-insert key key (record asset { holdings = some hs }) kept, bytes_eq_refl key)

-- The holding that a settlement writes at an address.
abbrev pub written : ℕ → ℕ → Bytes → Dict Bytes Holding → ℕ → Holding
written now nano addr hs n =
    let h = holding_or_new nano addr (some hs) in clear_expired now (record h { balance = n })

-- The holdings after the two writes of a settlement.
abbrev pub settled_holdings :
    ℕ → ℕ → Bytes → Bytes → ℕ → ℕ → Dict Bytes Holding → Dict Bytes Holding
settled_holdings now nano addr1 addr2 n1 n2 hs =
    insert addr2 (written now nano addr2 hs n2) (insert addr1 (written now nano addr1 hs n1) hs)

-- The balance at each address after two balances were set, the second one last.
abbrev pub two_set : Bytes → Bytes → ℕ → ℕ → (Bytes → ℕ) → Bytes → ℕ
two_set addr1 addr2 n1 n2 before addr =
    if bytes_eq addr addr2 then n2 else if bytes_eq addr addr1 then n1 else before addr

balance-written :
    (now nano : ℕ) (addr : Bytes) (hs : Dict Bytes Holding) (n : ℕ)
    → (written now nano addr hs n).balance ≡ n
balance-written now nano addr hs n =
    let h = holding_or_new nano addr (some hs) in
    balance-clear_expired now (record h { balance = n })

module _ (now nano : ℕ) (addr1 addr2 : Bytes) (n1 n2 : ℕ) (hs : Dict Bytes Holding) where
  pub balance-settled_holdings :
      (addr : Bytes)
      → balance_or_zero (lookup addr (settled_holdings now nano addr1 addr2 n1 n2 hs))
        ≡ two_set addr1 addr2 n1 n2 (λ a. balance_or_zero (lookup a hs)) addr
  balance-settled_holdings addr =
      let h1 = written now nano addr1 hs n1 in
      let h2 = written now nano addr2 hs n2 in
      ground (
        arith,
        lookup-insert addr addr2 h2 (insert addr1 h1 hs),
        lookup-insert addr addr1 h1 hs,
        balance-written now nano addr1 hs n1,
        balance-written now nano addr2 hs n2,
      )

  -- Where the two addresses differ and their balances add up to what they held, the supply stays.
  pub supply-settled_holdings :
      addr1 ≢ addr2
      → n1 + n2 ≡ balance_or_zero (lookup addr1 hs) + balance_or_zero (lookup addr2 hs)
      → supply (settled_holdings now nano addr1 addr2 n1 n2 hs) ≡ supply hs
  supply-settled_holdings apart balanced =
      let h1 = written now nano addr1 hs n1 in
      let h2 = written now nano addr2 hs n2 in
      ground (
        arith,
        supply-insert addr2 h2 (insert addr1 h1 hs),
        supply-insert addr1 h1 hs,
        lookup-insert addr2 addr1 h1 hs,
        bytes_eq_iff addr2 addr1,
        balance-written now nano addr1 hs n1,
        balance-written now nano addr2 hs n2,
      )

module _ {Addr MsgTx : Type 0} ⦃b : Btcutil Addr⦄ (now nano : ℕ) (itx : Transaction Addr MsgTx)
    {o1 o2 : TxOutput Addr} {rest : List (TxOutput Addr)} (a1 a2 : Addr)
    (outs : itx.outputs ≡ o1 ∷ o2 ∷ rest) (at1 : o1.address ≡ some a1)
    (at2 : o2.address ≡ some a2) where
  pub set_balances_lem :
      (key : Bytes) (asset : Asset) (n1 n2 : ℕ) (c : Contract) {kept : Dict Bytes Asset}
      {hs : Dict Bytes Holding}
      → c.assets ≡ some kept
      → asset.holdings ≡ some hs
      → set_balances now nano itx key asset n1 n2 c
        ≡ ok (
            with_holdings c key asset kept
              (settled_holdings now nano (b.encode_address a1) (b.encode_address a2) n1 n2 hs))
  unfolding set_balances
  set_balances_lem key asset n1 n2 c made held = ground arith
