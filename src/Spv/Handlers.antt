-- ===== src/Spv/Handlers.antt =====
-- The handlers of the peer's messages: `ping_handler.go`, `version_handler.go`, `inv_handler.go`,
-- `tx_handler.go`, `block_handler.go`, `get_headers_handler.go` and `headers_handler.go`. A result
-- `none` is a nil slice.
use smart_contract.Prelude.{
  ℕ, ◌+◌, ◌%◌, ◌^◌, Bool, false, not, ◌&&◌, ◌==◌, if◌then◌else◌, Bytes, bytes_key, List, [], ◌∷◌,
  ◌++◌, Option, none, some, Outcome, panic, err, ok,
}
use smart_contract.Prelude.Dict.{lookup}
use smart_contract.Spv.Action.{Action, done, logged, ◌>>=◌}
use smart_contract.Spv.Blocks.{
  less, Block, zero_block, HashText, FileStore, BlockJson, SpvWorld, Heard, Reply,
}
use smart_contract.Spv.Service.{has_block, read_block, write_block, see_block, prune}

-- `wire.BlockHeader`, with the value of its method `BlockHash`.
pub record Header : Type 0 where
  pub block_hash : Bytes
  pub prev_block : Bytes

-- `wire.InvVect`, by its type.
pub data Inventory : Type 0 where
  tx_item block_item : Bytes → Inventory
  other_item : Inventory

-- Whether there is a listener for transactions and one for blocks.
pub record Listeners : Type 0 where
  pub tx : Bool
  pub block : Bool

unfoldable pub handle_ping : {Files : Type 0} → ℕ → Action (SpvWorld Files) (Option (List Reply))
handle_ping nonce = done (some (Reply.pong nonce ∷ []))

unfoldable pub handle_version : {Files : Type 0} → Action (SpvWorld Files) (Option (List Reply))
handle_version = done (some (Reply.ver_ack ∷ []))

unfoldable pub requests_of : List Inventory → List Reply
requests_of [] = []
requests_of (Inventory.tx_item h ∷ items) = Reply.get_tx h ∷ requests_of items
requests_of (Inventory.block_item h ∷ items) = Reply.get_block h ∷ requests_of items
requests_of (Inventory.other_item ∷ items) = requests_of items

unfoldable pub handle_inv :
    {Files : Type 0} → List Inventory → Action (SpvWorld Files) (Option (List Reply))
unfolding requests_of
handle_inv items = done (some (requests_of items))

-- A listener is handed h, if there is one.
abbrev pub hand_on : {Files : Type 0} → Bool → Heard → Action (SpvWorld Files) (Unit {0})
hand_on there h w = (if there then record w { heard = w.heard ++ h ∷ [] } else w, ok tt)

unfoldable pub handle_tx :
    {Files : Type 0} → Listeners → Bytes → Action (SpvWorld Files) (Option (List Reply))
handle_tx listeners hash = hand_on listeners.tx (Heard.tx hash) >>= λ handed. done none

-- `shouldNotify`
unfoldable pub should_notify : {Files : Type 0} → Block → SpvWorld Files → Bool
should_notify b w = elim w.last_seen [
  | none ↦ false
  | some last ↦ w.synced && less last.height b.height
]

-- The first of the hashes that is known, or the last of them; it panics where there is none.
unfoldable pub locate : {Files : Type 0} → List Bytes → SpvWorld Files → Outcome Bytes
unfolding has_block
locate [] w = panic
locate (h ∷ []) w = ok h
locate (h ∷ next ∷ others) w =
    let rest = locate (next ∷ others) w in if has_block h w then ok h else rest

module _ {Files : Type 0} (hashes : HashText) (store : FileStore Files) (json : BlockJson) where
  unfoldable pub block_after : Bytes → Bytes → Block → Block
  block_after hash prev previous = record {
    hash = hashes.text hash;
    prev_block = prev;
    height = (previous.height + 1) % 2 ^ 32;
  }

  -- The part of the block handler for a block that is not known.
  unfoldable pub new_block : Listeners → Header → Action (SpvWorld Files) (Option (List Reply))
  new_block listeners h = read_block hashes store json h.prev_block >>= λ previous.
      (let b = block_after h.block_hash previous.hash previous in
        write_block hashes store json b >>= λ wrote.
        (λ w. hand_on (should_notify b w && listeners.block) (Heard.block h.block_hash) w)
        >>= λ handed. see_block hashes store json b >>= λ seen. done none)

  unfoldable pub handle_block : Listeners → Header → Action (SpvWorld Files) (Option (List Reply))
  unfolding new_block
  handle_block listeners h w =
      if has_block h.block_hash w then (w, ok none) else new_block listeners h w

  abbrev pub known_or_zero : Bytes → Option Block → Block
  known_or_zero hash none = record zero_block { hash = hashes.text hash }
  known_or_zero hash (some b) = b

  unfoldable pub handle_get_headers : List Bytes → Action (SpvWorld Files) (Option (List Reply))
  handle_get_headers locators = (λ w. (w, locate locators w)) >>= λ hash w.
      (write_block hashes store json (known_or_zero hash (lookup hash w.blocks)) >>= λ wrote.
      done none)
        w

  -- `buildGetDataForBlock`, as the messages that it adds.
  unfoldable pub get_data_for : Bytes → SpvWorld Files → List Reply
  get_data_for hash w = if w.synced && not (has_block hash w) then Reply.get_block hash ∷ [] else []

  -- One header whose parent was read: the block is written.
  unfoldable pub add_header :
      Header → List Reply → Block → Action (SpvWorld Files) (Block × List Reply)
  add_header h outs previous w =
      let b = block_after h.block_hash (hashes.text h.prev_block) previous in
      (write_block hashes store json b >>= λ wrote. done (b, outs ++ get_data_for h.block_hash w)) w

  -- A header whose parent is not found is passed over.
  unfoldable pub header_step :
      Header
      → Block × List Reply
      → SpvWorld Files × Outcome Block
      → SpvWorld Files × Outcome (Block × List Reply)
  header_step h seen (w, panic) = (w, panic)
  header_step h seen (w, err e) = (w, ok seen)
  header_step h (max, outs) (w, ok previous) = add_header h outs previous w

  -- The loop over the headers, with the last block and the messages so far.
  unfoldable pub headers_loop :
      List Header → Block × List Reply → Action (SpvWorld Files) (Block × List Reply)
  unfolding header_step add_header
  headers_loop [] seen = done seen
  headers_loop (h ∷ hs) seen =
      (λ w. header_step h seen (read_block hashes store json h.prev_block w)) >>= λ seen'.
      headers_loop hs seen'

  -- The hash of the last header.
  abbrev pub tip : Bytes → List Header → Bytes
  tip hash [] = hash
  tip hash (h ∷ hs) = tip h.block_hash hs

  abbrev pub more_headers : List Header → List Reply
  more_headers [] = []
  more_headers (h ∷ []) = []
  more_headers (h ∷ next ∷ hs) = Reply.get_headers (tip h.block_hash (next ∷ hs) ∷ []) ∷ []

  unfoldable pub after_headers :
      List Header → Block × List Reply → Action (SpvWorld Files) (Option (List Reply))
  after_headers hs (max, outs) =
      if max.height == 0
      then done none
      else (see_block hashes store json max >>= λ seen.
          logged (prune hashes store json max.height) >>= λ pruned.
          done (some (outs ++ more_headers hs)))

  unfoldable pub handle_headers : List Header → Action (SpvWorld Files) (Option (List Reply))
  unfolding headers_loop after_headers
  handle_headers [] = done none
  handle_headers (h ∷ hs) =
      headers_loop (h ∷ hs) (zero_block, []) >>= λ seen. after_headers (h ∷ hs) seen
