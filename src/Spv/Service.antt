-- ===== src/Spv/Service.antt =====
-- `block_service.go`: the recent blocks by their hashes, and the last one seen.
use smart_contract.Prelude.{
  ℕ, ◌+◌, ◌-◌, ◌%◌, ◌^◌, Bool, true, false, ltb, if◌then◌else◌, Bytes, bytes_key, List, [], ◌∷◌,
  length, Option, none, some, Outcome, panic, err, ok, Error, or_panic,
}
use smart_contract.Prelude.Dict.{Dict, lookup, insert, erase}
use smart_contract.Spv.Action.{Action, done, fail, lift, ◌>>=◌}
use smart_contract.Spv.Blocks.{
  less, Block, zero_block, HashText, FileStore, BlockJson, SpvWorld, write_file, read_file,
  remove_file, all_files, write_state, read_state,
}

abbrev pub max_blocks : ℕ
max_blocks = 10000

-- `b.Blocks[*h] = block` and `delete(b.Blocks, k)`.
abbrev pub put_block : {Files : Type 0} → Bytes → Block → Action (SpvWorld Files) (Unit {0})
put_block k b w = (record w { blocks = insert k b w.blocks }, ok tt)

abbrev pub delete_block : {Files : Type 0} → Bytes → Action (SpvWorld Files) (Unit {0})
delete_block k w = (record w { blocks = erase k w.blocks }, ok tt)

-- `HasBlock`
unfoldable pub has_block : {Files : Type 0} → Bytes → SpvWorld Files → Bool
has_block hash w = elim (lookup hash w.blocks) [ none ↦ false | some b ↦ true ]

module _ {Files : Type 0} (hashes : HashText) (store : FileStore Files) (json : BlockJson) where
  -- `h, _ := NewHashFromStr(block.Hash)`, where `*h` panics if there is none.
  abbrev pub key_of : Block → Outcome Bytes
  key_of b = or_panic (hashes.of_text b.hash)

  add_all : List Block → Action (SpvWorld Files) (Unit {0})
  add_all [] = done tt
  add_all (b ∷ bs) = elim (hashes.of_text b.hash) [
    | none ↦ fail Error.external
    | some k ↦ put_block k b >>= λ added. add_all bs
  ]

  unfoldable pub load_blocks : Action (SpvWorld Files) (Unit {0})
  unfolding add_all
  load_blocks = all_files store json >>= add_all

  unfoldable pub read_missing : Bytes → Option Block → Action (SpvWorld Files) Block
  read_missing hash none = read_file store json (hashes.text hash)
  read_missing hash (some b) = done b

  -- `Read`
  unfoldable pub read_block : Bytes → Action (SpvWorld Files) Block
  unfolding read_missing
  read_block hash w = read_missing hash (lookup hash w.blocks) w

  -- `Write`
  unfoldable pub write_block : Block → Action (SpvWorld Files) (Unit {0})
  write_block b = write_file store json b >>= λ wrote. lift (key_of b) >>= λ k. put_block k b

  unfoldable pub see_from : Block → Option Block → Action (SpvWorld Files) Block
  see_from b none w = (write_state store json b >>= λ wrote. done b) w
  see_from b (some last) w =
      if less last.height b.height
      then (write_state store json b >>= λ wrote. done b) w
      else (w, ok last)

  -- `LastSeen` has a value receiver: its `b.State = &state` assigns to a copy, so that the world keeps
  -- its `last_seen`, and only the file is written.
  unfoldable pub see_block : Block → Action (SpvWorld Files) Block
  unfolding see_from
  see_block b w = see_from b w.last_seen w

  -- `Remove`
  unfoldable pub remove_block : Block → Action (SpvWorld Files) (Unit {0})
  remove_block b = remove_file store json b >>= λ removed. lift (key_of b) >>= λ k. delete_block k

  -- The loop of `prune` over the entries of the map.
  unfoldable pub prune_loop : ℕ → Dict Bytes Block → Action (SpvWorld Files) (Unit {0})
  prune_loop min [] = done tt
  prune_loop min ((k, b) ∷ entries) =
      let rest = prune_loop min entries in
      if less b.height min
      then (remove_file store json b >>= λ removed. delete_block k >>= λ deleted. rest)
      else rest

  unfoldable pub prune : ℕ → Action (SpvWorld Files) (Unit {0})
  unfolding prune_loop
  prune max w =
      if ltb (length w.blocks) max_blocks
      then (w, ok tt)
      else prune_loop ((max + 2 ^ 32 - max_blocks) % 2 ^ 32) w.blocks w

  -- The state where there is a file, and a new one, written to a file, where there is none.
  state_or_new : SpvWorld Files × Outcome Block → SpvWorld Files × Outcome Block
  state_or_new (w, ok last) = (w, ok last)
  state_or_new (w, panic) = (w, panic)
  state_or_new (w, err Error.state_not_found) =
      (write_state store json zero_block >>= λ wrote. done zero_block) w
  state_or_new (w, err e) = (w, err e)

  -- `LoadState`
  unfoldable pub load_state : Action (SpvWorld Files) Block
  unfolding state_or_new
  load_state = (λ w. state_or_new (read_state store json w)) >>= λ last w.
      (record w { last_seen = some last }, ok last)
