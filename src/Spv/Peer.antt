-- ===== src/Spv/Peer.antt =====
-- `node.go` and `handler.go`: a message of the peer goes to its handler, and what that returns to the
-- queue. Goroutines take the queue to the peer, in any order.
use smart_contract.Prelude.{
  ℕ, Bool, true, false, if◌then◌else◌, Bytes, List, [], ◌∷◌, ◌++◌, Option, none, some, ok,
}
use smart_contract.Spv.Action.{Action, done, logged, ◌>>=◌}
use smart_contract.Spv.Blocks.{less, HashText, FileStore, BlockJson, SpvWorld, Reply}
use smart_contract.Spv.Service.{load_state, load_blocks}
use smart_contract.Spv.Handlers.{
  Header, Inventory, Listeners, handle_ping, handle_version, handle_inv, handle_tx, handle_block,
  handle_get_headers, handle_headers,
}

-- The messages, by the commands that have a handler; `other` has none.
pub data Incoming : Type 0 where
  ping : ℕ → Incoming
  version : Incoming
  inv : List Inventory → Incoming
  tx : Bytes → Incoming
  block : Header → Incoming
  get_headers : List Bytes → Incoming
  headers : List Header → Incoming
  other : Incoming

abbrev pub is_headers : Incoming → Bool
is_headers (Incoming.headers hs) = true
is_headers _ = false

module _ {Files : Type 0} (hashes : HashText) (store : FileStore Files) (json : BlockJson) where
  -- `newCommandHandlers`, and the call of `h.Handle`.
  unfoldable pub run_command : Listeners → Incoming → Action (SpvWorld Files) (Option (List Reply))
  run_command listeners (Incoming.ping nonce) = handle_ping nonce
  run_command listeners Incoming.version = handle_version
  run_command listeners (Incoming.inv items) = handle_inv items
  run_command listeners (Incoming.tx hash) = handle_tx listeners hash
  run_command listeners (Incoming.block h) = handle_block hashes store json listeners h
  run_command listeners (Incoming.get_headers locators) =
      handle_get_headers hashes store json locators
  run_command listeners (Incoming.headers hs) = handle_headers hashes store json hs
  run_command listeners Incoming.other = done (some [])

  -- What `handle` does with the result: nil for headers means that there are no more of them.
  unfoldable pub answer : Incoming → Option (List Reply) → Action (SpvWorld Files) (Unit {0})
  answer m none w = (if is_headers m then record w { synced = true } else w, ok tt)
  answer m (some outs) w = (record w { queue = w.queue ++ outs }, ok tt)

  -- `Node.handle`
  unfoldable pub handle_message : Listeners → Incoming → Action (SpvWorld Files) (Unit {0})
  unfolding run_command answer
  handle_message listeners m = run_command listeners m >>= λ out. answer m out

  -- `readPeer`, for the messages that it reads: an error is logged.
  unfoldable pub read_peer : Listeners → List Incoming → Action (SpvWorld Files) (Unit {0})
  read_peer listeners [] = done tt
  read_peer listeners (m ∷ ms) =
      logged (handle_message listeners m) >>= λ handled. read_peer listeners ms

  -- `Start`, up to the connection.
  unfoldable pub start_node : Action (SpvWorld Files) (Unit {0})
  start_node = load_state hashes store json >>= λ last.
      (λ w. (if less 0 last.height then record w { synced = true } else w, ok tt)) >>= λ loaded.
      load_blocks hashes store json
