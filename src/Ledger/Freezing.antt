-- ===== src/Ledger/Freezing.antt =====
-- Freeze and thaw: what the two responses do to a holding, and what the validators make of it.
use smart_contract.Prelude.{
  ℕ, ◌≤◌, Bytes, ascii, bytes_eq, bytes_eq_iff, bytes_key, true, false, if◌then◌else◌, Option, none,
  some, List, ◌∷◌, ◌≡◌, refl, ◌≢◌, ap, ◌∙◌, ok, err, arith, rejected,
}
use smart_contract.Prelude.Dict.{Dict, get, lookup, insert, lookup-insert}
use smart_contract.Protocol.{Message, Freeze, Thaw, Send, Exchange}
use smart_contract.Protocol.RejectionCode
use smart_contract.Btcutil.{Btcutil}
use smart_contract.TxBuilder.{TxOutput}
use smart_contract.State.{Asset, Holding, HoldingStatus, Contract, is_expired}
use smart_contract.Inspector.{Transaction}
use smart_contract.Request.Transfer.{balance_or_zero}
use smart_contract.Response.Handlers.{holding_or_new, freeze_handler, thaw_handler}
use smart_contract.Validator.Transfer.{validate_send, validate_exchange, in_force, status_of}
use smart_contract.Ledger.Balance.{
  holding_of, balance_of, with_holdings, holding_of-with_holdings, bytes_eq_refl, get-with_holdings,
}

-- The validator of a send, on a holding that covers the amount and whose status is in force.
validate_send-frozen :
    {Addr MsgTx : Type 0} ⦃b : Btcutil Addr⦄ (later : ℕ) (sent : Transaction Addr MsgTx) (m : Send)
    (c : Contract) {asset : Asset} {hs : Dict Bytes Holding} (party1 : Holding) {sender : Addr}
    {senders : List Addr}
    → sent.input_addrs ≡ sender ∷ senders
    → get m.asset_id c.assets ≡ some asset
    → asset.holdings ≡ some hs
    → lookup (b.encode_address sender) hs ≡ some party1
    → m.token_qty ≤ party1.balance
    → in_force later party1.holding_status ≡ true
    → validate_send later sent c (Message.send m) ≡ err (rejected RejectionCode.frozen)
unfolding validate_send
validate_send-frozen later sent m c party1 sends found held holds covers force = ground arith

validate_exchange-frozen :
    {Addr MsgTx : Type 0} ⦃b : Btcutil Addr⦄ (later : ℕ) (sent : Transaction Addr MsgTx)
    (m : Exchange) (c : Contract) {asset : Asset} {hs : Dict Bytes Holding} (party1 : Holding)
    {sender : Addr} {senders : List Addr}
    → sent.input_addrs ≡ sender ∷ senders
    → get m.party1_asset_id c.assets ≡ some asset
    → asset.holdings ≡ some hs
    → lookup (b.encode_address sender) hs ≡ some party1
    → m.party1_token_qty ≤ party1.balance
    → in_force later party1.holding_status ≡ true
    → validate_exchange later sent c (Message.exchange m) ≡ err (rejected RejectionCode.frozen)
unfolding validate_exchange
validate_exchange-frozen later sent m c party1 sends found held holds covers force = ground arith

-- The status that a freeze order leaves on a holding.
abbrev pub frozen_until : ℕ → HoldingStatus
frozen_until expires = record { code = ascii "F"; expires = expires }

-- A contract with the asset and the address that a freeze or thaw response names.
pub record HasTarget {Addr MsgTx : Type 0} (b : Btcutil Addr) (itx : Transaction Addr MsgTx)
    (c : Contract) (key : Bytes) : Type 0 where
  pub asset : Asset
  pub assets : Dict Bytes Asset
  pub holdings : Dict Bytes Holding
  pub out : TxOutput Addr
  pub rest : List (TxOutput Addr)
  pub target : Addr
  pub has_assets : c.assets ≡ some assets
  pub has_asset : lookup key assets ≡ some asset
  pub has_holdings : asset.holdings ≡ some holdings
  pub outs : itx.outputs ≡ out ∷ rest
  pub reaches : out.address ≡ some target

module _ {Addr MsgTx : Type 0} ⦃b : Btcutil Addr⦄ (now nano : ℕ) {itx : Transaction Addr MsgTx}
    {c : Contract} where
  -- The contract with the target's status set.
  abbrev pub with_status : {key : Bytes} → HasTarget b itx c key → Option HoldingStatus → Contract
  with_status {key} t status =
      let h = holding_or_new nano (b.encode_address t.target) (some t.holdings) in
      with_holdings c key t.asset t.assets
        (insert (b.encode_address t.target) (record h { holding_status = status }) t.holdings)

  pub freeze_handler_lem :
      (msg : Freeze) (t : HasTarget b itx c msg.asset_id)
      → freeze_handler now nano itx msg c ≡ ok (with_status t (some (frozen_until msg.expiration)))
  unfolding freeze_handler
  freeze_handler_lem msg t =
      ground (arith, t.has_assets, t.has_asset, t.has_holdings, t.outs, t.reaches)

  pub thaw_handler_lem :
      (msg : Thaw) (t : HasTarget b itx c msg.asset_id)
      → thaw_handler now nano itx msg c ≡ ok (with_status t none)
  unfolding thaw_handler
  thaw_handler_lem msg t =
      ground (arith, t.has_assets, t.has_asset, t.has_holdings, t.outs, t.reaches)

  module _ {key : Bytes} (t : HasTarget b itx c key) (status : Option HoldingStatus) where
    -- The target's holding with the status, or a new one.
    abbrev pub marked : Holding
    marked =
        let h = holding_or_new nano (b.encode_address t.target) (some t.holdings) in
        record h { holding_status = status }

    holding_of-with_status :
        (addr : Bytes)
        → holding_of (with_status t status) key addr ≡ (
            if bytes_eq addr (b.encode_address t.target)
            then some marked
            else lookup addr t.holdings)
    holding_of-with_status addr =
        holding_of-with_holdings c key t.asset t.assets
          (insert (b.encode_address t.target) marked t.holdings) addr
        ∙ lookup-insert addr (b.encode_address t.target) marked t.holdings

    holding_before : (addr : Bytes) → holding_of c key addr ≡ lookup addr t.holdings
    holding_before addr = ground (arith, t.has_assets, t.has_asset, t.has_holdings)

    -- A freeze or a thaw leaves every balance of the asset as it was.
    pub balance-with_status :
        (addr : Bytes) → balance_of (with_status t status) key addr ≡ balance_of c key addr
    unfolding holding_or_new
    balance-with_status addr = ground (
      arith,
      ap balance_or_zero (holding_of-with_status addr),
      ap balance_or_zero (holding_before addr),
      bytes_eq_iff addr (b.encode_address t.target),
    )

  get_marked :
      (msg : Freeze) (t : HasTarget b itx c msg.asset_id) {k : Bytes}
      → k ≡ msg.asset_id
      → get k (with_status t (some (frozen_until msg.expiration))).assets
        ≡ some (
            let a = t.asset in
            record a {
              holdings = some (
                  insert
                    (b.encode_address t.target)
                    (marked t (some (frozen_until msg.expiration)))
                    t.holdings);
            })
  get_marked msg t e = rw e (get-with_holdings c msg.asset_id t.asset t.assets _)

  module _ (msg : Freeze) (t : HasTarget b itx c msg.asset_id) where
    -- The contract that the freeze of a target leaves.
    abbrev pub frozen : Contract
    frozen = with_status t (some (frozen_until msg.expiration))

    -- After a freeze of an address, a send by that address of an amount that it holds is rejected with
    -- the code for frozen assets, at every time at which the freeze has not expired.
    pub freeze_blocks_send :
        (later : ℕ) (sent : Transaction Addr MsgTx) (m : Send) (sender : Addr) {senders : List Addr}
        → is_expired later (frozen_until msg.expiration) ≡ false
        → sent.input_addrs ≡ sender ∷ senders
        → b.encode_address sender ≡ b.encode_address t.target
        → m.asset_id ≡ msg.asset_id
        → m.token_qty ≤ balance_of c msg.asset_id (b.encode_address t.target)
        → (freeze_handler now nano itx msg c ≡ ok frozen)
          × (validate_send later sent frozen (Message.send m) ≡ err (rejected RejectionCode.frozen))
    unfolding in_force holding_or_new
    freeze_blocks_send later sent m sender unexpired sends same asset covers =
        let to = b.encode_address t.target in
        let h = marked t (some (frozen_until msg.expiration)) in
        let hs = insert to h t.holdings in
        (
          freeze_handler_lem msg t,
          validate_send-frozen later sent m frozen h sends (get_marked msg t asset) refl
              (ground
                (arith, lookup-insert (b.encode_address sender) to h t.holdings, bytes_eq_refl to))
              (ground (arith, ap balance_or_zero (holding_before t none to))) (ground arith),
        )

    -- After a freeze of an address, an exchange with that address as its first party, of an amount that
    -- it holds, is rejected with the code for frozen assets until the freeze expires.
    pub freeze_blocks_exchange :
        (later : ℕ) (sent : Transaction Addr MsgTx) (m : Exchange) (sender : Addr)
        {senders : List Addr}
        → is_expired later (frozen_until msg.expiration) ≡ false
        → sent.input_addrs ≡ sender ∷ senders
        → b.encode_address sender ≡ b.encode_address t.target
        → m.party1_asset_id ≡ msg.asset_id
        → m.party1_token_qty ≤ balance_of c msg.asset_id (b.encode_address t.target)
        → (freeze_handler now nano itx msg c ≡ ok frozen)
          × (validate_exchange later sent frozen (Message.exchange m)
              ≡ err (rejected RejectionCode.frozen))
    unfolding in_force holding_or_new
    freeze_blocks_exchange later sent m sender unexpired sends same asset covers =
        let to = b.encode_address t.target in
        let h = marked t (some (frozen_until msg.expiration)) in
        (
          freeze_handler_lem msg t,
          validate_exchange-frozen later sent m frozen h sends (get_marked msg t asset) refl
              (ground
                (arith, lookup-insert (b.encode_address sender) to h t.holdings, bytes_eq_refl to))
              (ground (arith, ap balance_or_zero (holding_before t none to))) (ground arith),
        )

  -- A thaw of an address clears the status of its holding, keeps the balance of every address, and
  -- keeps the holding of every other address.
  pub thaw_clears :
      (msg : Thaw) (t : HasTarget b itx c msg.asset_id)
      → (thaw_handler now nano itx msg c ≡ ok (with_status t none))
        × (in_force now
              (status_of (holding_of (with_status t none) msg.asset_id (b.encode_address t.target)))
            ≡ false)
        × ((addr : Bytes)
            → balance_of (with_status t none) msg.asset_id addr ≡ balance_of c msg.asset_id addr)
        × ((addr : Bytes)
            → addr ≢ b.encode_address t.target
            → holding_of (with_status t none) msg.asset_id addr ≡ holding_of c msg.asset_id addr)
  unfolding in_force
  thaw_clears msg t =
      let to = b.encode_address t.target in
      (
        thaw_handler_lem msg t,
        ground (arith, holding_of-with_status t none to, bytes_eq_refl to),
        balance-with_status t none,
        λ addr other. ground (
          arith,
          holding_of-with_status t none addr,
          holding_before t none addr,
          bytes_eq_iff addr to,
        ),
      )
