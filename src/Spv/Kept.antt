-- ===== src/Spv/Kept.antt =====
-- What no message of the peer changes.
use smart_contract.Prelude.{
  ℕ, ◌≡◌, ◌⊎◌, inl, inr, refl, ap, ◌∙◌, Bool, true, false, ltb, ◌==◌, Bool-cases, Option-cases,
  Bytes, bytes_key, bytes_eq, bytes_eq_iff, List, [], ◌∷◌, All, length, Option, none, some, Outcome,
  panic, err, ok,
}
use smart_contract.Prelude.Dict.{Dict, lookup, insert, erase}
use smart_contract.Spv.Action.{Action, done, lift, ignored, continue, ◌>>=◌}
use smart_contract.Spv.Blocks.{
  less, Block, HashText, FileStore, BlockJson, SpvWorld, Heard, Reply, write_file, read_file,
  remove_file, write_state, stored,
}
use smart_contract.Spv.Service.{
  has_block, read_block, write_block, see_block, see_from, prune, prune_loop, put_block,
  delete_block, key_of, read_missing, max_blocks,
}
use smart_contract.Spv.Handlers.{
  Header, Listeners, handle_ping, handle_version, handle_inv, handle_tx, handle_block, new_block,
  handle_get_headers, handle_headers, headers_loop, header_step, add_header, after_headers, hand_on,
  locate,
}
use smart_contract.Spv.Peer.{Incoming, run_command, answer, handle_message, read_peer, is_headers}

module _ (hashes : HashText) where
  -- Every block stands under the hash that its text names.
  abbrev pub IsKeyed : Dict Bytes Block → Type 0
  IsKeyed d = All (λ (e : Bytes × Block). hashes.of_text e.1.hash ≡ some e.0) d

  insert-IsKeyed :
      (k : Bytes) (b : Block) (d : Dict Bytes Block)
      → hashes.of_text b.hash ≡ some k
      → IsKeyed d
      → IsKeyed (insert k b d)
  unfolding insert
  insert-IsKeyed k b [] named keyed = (named, tt)
  insert-IsKeyed k b ((j, c) ∷ d) named (first, others) = elim (Bool-cases (bytes_eq k j)) [
    | inl same ↦ rw same (named ∙ ap some ((bytes_eq_iff k j).0 same), others)
    | inr apart ↦ rw apart (first, insert-IsKeyed k b d named others)
  ]

  erase-IsKeyed : (k : Bytes) (d : Dict Bytes Block) → IsKeyed d → IsKeyed (erase k d)
  unfolding erase
  erase-IsKeyed k [] keyed = tt
  erase-IsKeyed k ((j, c) ∷ d) (first, others) = elim (Bool-cases (bytes_eq k j)) [
    | inl same ↦ rw same (erase-IsKeyed k d others)
    | inr apart ↦ rw apart (first, erase-IsKeyed k d others)
  ]

synced_or_same : (a b : Bool) → (a ≡ true → b ≡ true) → (b ≡ true) ⊎ (b ≡ a)
synced_or_same true b still = inl (still refl)
synced_or_same false true still = inl refl
synced_or_same false false still = inr refl

module _ {Files : Type 0} (hashes : HashText) (store : FileStore Files) (json : BlockJson) where
  -- The last block seen stays, the blocks stay under their hashes, and a synced node stays synced.
  abbrev pub Kept : SpvWorld Files → SpvWorld Files → Type 0
  Kept w w' =
      (w'.last_seen ≡ w.last_seen)
      × (IsKeyed hashes w.blocks → IsKeyed hashes w'.blocks)
      × (w.synced ≡ true → w'.synced ≡ true)

  abbrev Keeps : {A : Type 0} → Action (SpvWorld Files) A → Type 0
  Keeps action = (w : SpvWorld Files) → Kept w (action w).0

  Kept-refl : (w : SpvWorld Files) → Kept w w
  Kept-refl w = (refl, λ k. k, λ s. s)

  Kept-trans : (u v w : SpvWorld Files) → Kept u v → Kept v w → Kept u w
  Kept-trans u v w (seen, keyed, synced) (seen', keyed', synced') =
      (seen' ∙ seen, λ k. keyed' (keyed k), λ s. synced' (synced s))

  continue-Kept :
      {A B : Type 0} (w : SpvWorld Files) (r : SpvWorld Files × Outcome A)
      (rest : A → Action (SpvWorld Files) B)
      → Kept w r.0
      → ((a : A) → Keeps (rest a))
      → Kept w (continue r rest).0
  unfolding continue
  continue-Kept w (v, panic) rest kept keeps = kept
  continue-Kept w (v, err e) rest kept keeps = kept
  continue-Kept w (v, ok a) rest kept keeps = Kept-trans w v (rest a v).0 kept (keeps a v)

  stored-Kept : (w : SpvWorld Files) (o : Outcome Files) → Kept w (stored store json w o).0
  stored-Kept w panic = Kept-refl w
  stored-Kept w (err e) = Kept-refl w
  stored-Kept w (ok files) = (refl, λ k. k, λ s. s)

  write_file-Keeps : (b : Block) → Keeps (write_file store json b)
  unfolding write_file
  write_file-Keeps b w =
      continue-Kept w (w, json.marshal_block b) _ (Kept-refl w) (λ bytes v. stored-Kept v _)

  write_state-Keeps : (b : Block) → Keeps (write_state store json b)
  unfolding write_state
  write_state-Keeps b w =
      continue-Kept w (w, json.marshal_state b) _ (Kept-refl w) (λ bytes v. stored-Kept v _)

  read_file-Keeps : (id : Bytes) → Keeps (read_file store json id)
  unfolding read_file
  read_file-Keeps id w = continue-Kept w _ _ (Kept-refl w) (λ bytes v. Kept-refl v)

  remove_file-Keeps : (b : Block) → Keeps (remove_file store json b)
  unfolding remove_file
  remove_file-Keeps b w = stored-Kept w _

  delete_block-Keeps : (k : Bytes) → Keeps (delete_block k)
  delete_block-Keeps k w = (refl, erase-IsKeyed hashes k w.blocks, λ s. s)

  put_named-Keeps : (b : Block) → Keeps (lift (key_of hashes store json b) >>= λ k. put_block k b)
  unfolding continue
  put_named-Keeps b w = elim (Option-cases (hashes.of_text b.hash)) [
    | inl none_named ↦ rw none_named (Kept-refl w)
    | inr (k, named) ↦ rw named (refl, insert-IsKeyed hashes k b w.blocks named, λ s. s)
  ]

  write_block-Keeps : (b : Block) → Keeps (write_block hashes store json b)
  unfolding write_block
  write_block-Keeps b w = continue-Kept w _ _ (write_file-Keeps b w) (λ wrote. put_named-Keeps b)

  read_missing-Keeps :
      (hash : Bytes) (found : Option Block) → Keeps (read_missing hashes store json hash found)
  unfolding read_missing
  read_missing-Keeps hash none = read_file-Keeps (hashes.text hash)
  read_missing-Keeps hash (some b) = Kept-refl

  read_block-Keeps : (hash : Bytes) → Keeps (read_block hashes store json hash)
  unfolding read_block
  read_block-Keeps hash w = read_missing-Keeps hash (lookup hash w.blocks) w

  write_seen-Keeps : (b : Block) → Keeps (write_state store json b >>= λ wrote. done b)
  write_seen-Keeps b w = continue-Kept w _ _ (write_state-Keeps b w) (λ wrote. Kept-refl)

  see_from-Keeps : (b : Block) (seen : Option Block) → Keeps (see_from hashes store json b seen)
  unfolding see_from
  see_from-Keeps b none w = write_seen-Keeps b w
  see_from-Keeps b (some last) w = elim (Bool-cases (less last.height b.height)) [
    | inl higher ↦ rw higher (write_seen-Keeps b w)
    | inr lower ↦ rw lower (Kept-refl w)
  ]

  see_block-Keeps : (b : Block) → Keeps (see_block hashes store json b)
  unfolding see_block
  see_block-Keeps b w = see_from-Keeps b w.last_seen w

  prune_loop-Keeps :
      (min : ℕ) (entries : Dict Bytes Block) → Keeps (prune_loop hashes store json min entries)
  unfolding prune_loop
  prune_loop-Keeps min [] w = Kept-refl w
  prune_loop-Keeps min ((k, b) ∷ entries) w = elim (Bool-cases (less b.height min)) [
    | inl old ↦ rw old (
        continue-Kept w _ _ (remove_file-Keeps b w) (λ removed v.
          continue-Kept v _ _ (delete_block-Keeps k v) (λ deleted. prune_loop-Keeps min entries)))
    | inr recent ↦ rw recent (prune_loop-Keeps min entries w)
  ]

  prune-Keeps : (max : ℕ) → Keeps (prune hashes store json max)
  unfolding prune
  prune-Keeps max w = elim (Bool-cases (ltb (length w.blocks) max_blocks)) [
    | inl few ↦ rw few (Kept-refl w)
    | inr many ↦ rw many (prune_loop-Keeps _ w.blocks w)
  ]

  ignored-Kept :
      (w : SpvWorld Files) (r : SpvWorld Files × Outcome (Unit {0}))
      → Kept w r.0
      → Kept w (ignored r).0
  unfolding ignored
  ignored-Kept w (v, panic) kept = kept
  ignored-Kept w (v, err e) kept = kept
  ignored-Kept w (v, ok a) kept = kept

  hand_on-Keeps : (there : Bool) (h : Heard) → Keeps (hand_on there h)
  hand_on-Keeps false h w = Kept-refl w
  hand_on-Keeps true h w = (refl, λ k. k, λ s. s)

  new_block-Keeps :
      (listeners : Listeners) (h : Header) → Keeps (new_block hashes store json listeners h)
  unfolding new_block
  new_block-Keeps listeners h w =
      continue-Kept w _ _ (read_block-Keeps h.prev_block w) (λ previous w1.
        continue-Kept w1 _ _ (write_block-Keeps _ w1) (λ wrote w2.
          continue-Kept w2 _ _ (hand_on-Keeps _ (Heard.block h.block_hash) w2)
            (λ handed w3. continue-Kept w3 _ _ (see_block-Keeps _ w3) (λ seen. Kept-refl))))

  handle_block-Keeps :
      (listeners : Listeners) (h : Header) → Keeps (handle_block hashes store json listeners h)
  unfolding handle_block
  handle_block-Keeps listeners h w = elim (Bool-cases (has_block h.block_hash w)) [
    | inl known ↦ rw known (Kept-refl w)
    | inr unknown ↦ rw unknown (new_block-Keeps listeners h w)
  ]

  handle_get_headers-Keeps :
      (locators : List Bytes) → Keeps (handle_get_headers hashes store json locators)
  unfolding handle_get_headers
  handle_get_headers-Keeps locators w =
      continue-Kept w (w, locate locators w) _ (Kept-refl w)
        (λ hash v. continue-Kept v _ _ (write_block-Keeps _ v) (λ wrote. Kept-refl))

  add_header-Keeps :
      (h : Header) (outs : List Reply) (previous : Block)
      → Keeps (add_header hashes store json h outs previous)
  unfolding add_header
  add_header-Keeps h outs previous v =
      continue-Kept v _ _ (write_block-Keeps _ v) (λ wrote. Kept-refl)

  header_step-Keeps :
      (h : Header) (seen : Block × List Reply) (w : SpvWorld Files)
      (r : SpvWorld Files × Outcome Block)
      → Kept w r.0
      → Kept w (header_step hashes store json h seen r).0
  unfolding header_step
  header_step-Keeps h seen w (v, panic) kept = kept
  header_step-Keeps h seen w (v, err e) kept = kept
  header_step-Keeps h (max, outs) w (v, ok previous) kept =
      Kept-trans w v (add_header hashes store json h outs previous v).0 kept
        (add_header-Keeps h outs previous v)

  headers_loop-Keeps :
      (hs : List Header) (seen : Block × List Reply)
      → Keeps (headers_loop hashes store json hs seen)
  unfolding headers_loop
  headers_loop-Keeps [] seen w = Kept-refl w
  headers_loop-Keeps (h ∷ hs) seen w =
      continue-Kept w _ _ (header_step-Keeps h seen w _ (read_block-Keeps h.prev_block w))
        (headers_loop-Keeps hs)

  after_headers-Keeps :
      (hs : List Header) (seen : Block × List Reply)
      → Keeps (after_headers hashes store json hs seen)
  unfolding after_headers
  after_headers-Keeps hs (max, outs) w = elim (Bool-cases (max.height == 0)) [
    | inl none_added ↦ rw none_added (Kept-refl w)
    | inr some_added ↦ rw some_added (
        continue-Kept w _ _ (see_block-Keeps max w) (λ seen v.
          continue-Kept v _ _ (ignored-Kept v _ (prune-Keeps max.height v)) (λ pruned. Kept-refl)))
  ]

  handle_headers-Keeps : (hs : List Header) → Keeps (handle_headers hashes store json hs)
  unfolding handle_headers
  handle_headers-Keeps [] w = Kept-refl w
  handle_headers-Keeps (h ∷ hs) w =
      continue-Kept w _ _ (headers_loop-Keeps (h ∷ hs) _ w) (after_headers-Keeps (h ∷ hs))

  run_command-Keeps :
      (listeners : Listeners) (m : Incoming) → Keeps (run_command hashes store json listeners m)
  unfolding run_command handle_ping handle_version handle_inv handle_tx
  run_command-Keeps listeners (Incoming.ping nonce) = Kept-refl
  run_command-Keeps listeners Incoming.version = Kept-refl
  run_command-Keeps listeners (Incoming.inv items) = Kept-refl
  run_command-Keeps listeners (Incoming.tx hash) =
      λ w. continue-Kept w _ _ (hand_on-Keeps listeners.tx (Heard.tx hash) w) (λ handed. Kept-refl)
  run_command-Keeps listeners (Incoming.block h) = handle_block-Keeps listeners h
  run_command-Keeps listeners (Incoming.get_headers locators) = handle_get_headers-Keeps locators
  run_command-Keeps listeners (Incoming.headers hs) = handle_headers-Keeps hs
  run_command-Keeps listeners Incoming.other = Kept-refl

  answer-Keeps : (m : Incoming) (out : Option (List Reply)) → Keeps (answer hashes store json m out)
  unfolding answer
  answer-Keeps m none w = elim (Bool-cases (is_headers m)) [
    | inl last ↦ rw last (refl, λ k. k, λ s. refl)
    | inr other ↦ rw other (Kept-refl w)
  ]
  answer-Keeps m (some outs) w = (refl, λ k. k, λ s. s)

  handle_message-Keeps :
      (listeners : Listeners) (m : Incoming) → Keeps (handle_message hashes store json listeners m)
  unfolding handle_message
  handle_message-Keeps listeners m w =
      continue-Kept w _ _ (run_command-Keeps listeners m w) (answer-Keeps m)

  read_peer-Keeps :
      (listeners : Listeners) (ms : List Incoming)
      → Keeps (read_peer hashes store json listeners ms)
  unfolding read_peer
  read_peer-Keeps listeners [] w = Kept-refl w
  read_peer-Keeps listeners (m ∷ ms) w =
      continue-Kept w _ _ (ignored-Kept w _ (handle_message-Keeps listeners m w))
        (λ handled. read_peer-Keeps listeners ms)

-- Where the blocks in memory stand under the hashes that their texts name, whatever messages the peer
-- sends and whatever the storage does, also where a handler fails: they do so afterwards, the last
-- block seen in memory is the one from before, and the node is in sync or as much in sync as before.
pub read_peer-IsKeyed :
    {Files : Type 0} (hashes : HashText) (store : FileStore Files) (json : BlockJson)
    (listeners : Listeners) (ms : List Incoming) (w : SpvWorld Files)
    → IsKeyed hashes w.blocks
    → IsKeyed hashes (read_peer hashes store json listeners ms w).0.blocks
      × ((read_peer hashes store json listeners ms w).0.last_seen ≡ w.last_seen)
      × (((read_peer hashes store json listeners ms w).0.synced ≡ true)
          ⊎ ((read_peer hashes store json listeners ms w).0.synced ≡ w.synced))
read_peer-IsKeyed hashes store json listeners ms w keyed =
    let kept = read_peer-Keeps hashes store json listeners ms w in
    (kept.1 keyed, kept.0, synced_or_same w.synced _ kept.2)
