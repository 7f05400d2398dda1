-- ===== src/Spv/Chain.antt =====
-- The loop over the headers of a message, where these are a chain on a block that is known.
use Prim.Native.Nat.{suc}
use smart_contract.Prelude.{
  ℕ, ◌+◌, ◌%◌, ◌^◌, ◌≡◌, refl, sym, subst, ap, ◌∙◌, true, false, Bytes, bytes_key, bytes_eq_iff,
  List, [], ◌∷◌, ◌++◌, All, length, none, some, ok, or_panic, arith,
}
use smart_contract.Prelude.Dict.{lookup, insert, lookup-insert}
use smart_contract.Spv.Action.{continue, lift, ◌>>=◌}
use smart_contract.Spv.Blocks.{
  Block, HashText, FileStore, BlockJson, SpvWorld, Reply, write_file, path_of, stored,
}
use smart_contract.Spv.Service.{has_block, read_block, read_missing, write_block, key_of, put_block}
use smart_contract.Spv.Handlers.{
  Header, headers_loop, header_step, add_header, block_after, get_data_for, tip,
}

-- The hashes of the headers are those of `chainhash`.
abbrev pub Hashed : List Header → Type 0
Hashed hs = All (λ h. length h.block_hash ≡ 32) hs

-- Each header names the block before it, the first one p.
abbrev pub Linked : Bytes → List Header → Type 0
Linked p [] = Unit
Linked p (h ∷ hs) = (h.prev_block ≡ p) × Linked h.block_hash hs

-- Texts of hashes of 32 bytes are read back, JSON takes every block, and the storage takes what is
-- written.
pub record IsWorking {Files : Type 0} (hashes : HashText) (store : FileStore Files)
    (json : BlockJson) : Type 0 where
  pub reads : (h : Bytes) → length h ≡ 32 → hashes.of_text (hashes.text h) ≡ some h
  pub marshals : (b : Block) → (bytes : Bytes) × (json.marshal_block b ≡ ok bytes)
  pub writes : (k v : Bytes) (f : Files) → (f' : Files) × (store.write k v f ≡ ok f')

module _ {Files : Type 0} (hashes : HashText) (store : FileStore Files) (json : BlockJson)
    (works : IsWorking hashes store json) where
  write_file-eq-ok :
      (b : Block) (w : SpvWorld Files)
      → (f : Files) × (write_file store json b w ≡ (record w { files = f }, ok tt))
  unfolding write_file continue
  write_file-eq-ok b w =
      let (bytes, marshalled) = works.marshals b in
      let (f, written) = works.writes (path_of b.hash) bytes w.files in
      (
        f,
        ap
              (λ o.
                continue (w, o)
                  (λ v x. stored store json x (store.write (path_of b.hash) v x.files)))
              marshalled
            ∙ ap (stored store json w) written,
      )

  write_block-eq-ok :
      (b : Block) (k : Bytes) (w : SpvWorld Files)
      → hashes.of_text b.hash ≡ some k
      → (f : Files) × (write_block hashes store json b w
          ≡ (record w { files = f; blocks = insert k b w.blocks }, ok tt))
  unfolding write_block continue
  write_block-eq-ok b k w named =
      let (f, filed) = write_file-eq-ok b w in
      (
        f,
        ap (λ r. continue r (λ wrote. lift (key_of hashes store json b) >>= λ j. put_block j b))
              filed
            ∙ ap (λ o. continue (record w { files = f }, or_panic o) (λ j. put_block j b)) named,
      )

  -- A block in memory is what `Read` gives.
  read_block-lookup :
      (hash : Bytes) (b : Block) (w : SpvWorld Files)
      → lookup hash w.blocks ≡ some b
      → read_block hashes store json hash w ≡ (w, ok b)
  unfolding read_block read_missing
  read_block-lookup hash b w found = rw found refl

  headers_loop-step :
      (h : Header) (hs : List Header) (b max : Block) (outs : List Reply) (w : SpvWorld Files)
      → length h.block_hash ≡ 32
      → read_block hashes store json h.prev_block w ≡ (w, ok b)
      → (f : Files) × (let b1 =
            block_after hashes store json h.block_hash (hashes.text h.prev_block) b in
          headers_loop hashes store json (h ∷ hs) (max, outs) w
          ≡ headers_loop hashes store json hs
              (b1, outs ++ get_data_for hashes store json h.block_hash w)
              record w { files = f; blocks = insert h.block_hash b1 w.blocks })
  unfolding headers_loop header_step add_header continue block_after
  headers_loop-step h hs b max outs w long found =
      let b1 = block_after hashes store json h.block_hash (hashes.text h.prev_block) b in
      let (f, wrote) = write_block-eq-ok b1 h.block_hash w (works.reads h.block_hash long) in
      (f, rw found (rw wrote refl))

  has_block-insert :
      (x k : Bytes) (b : Block) (f : Files) (w : SpvWorld Files)
      → has_block x w ≡ true
      → has_block x record w { files = f; blocks = insert k b w.blocks } ≡ true
  unfolding has_block
  has_block-insert x k b f w known = ground (arith, lookup-insert x k b w.blocks)

  lookup-insert_same :
      (k : Bytes) (b : Block) (w : SpvWorld Files) → lookup k (insert k b w.blocks) ≡ some b
  lookup-insert_same k b w = ground (arith, lookup-insert k k b w.blocks, bytes_eq_iff k k)

  has_block-lookup :
      (k : Bytes) (b : Block) (w : SpvWorld Files)
      → lookup k w.blocks ≡ some b
      → has_block k w ≡ true
  unfolding has_block
  has_block-lookup k b w found = ap (λ o. elim o [ none ↦ false | some c ↦ true ]) found

  -- A block that is known stays known.
  headers_loop-known :
      (hs : List Header) (seen : Block × List Reply) (p x : Bytes) (b : Block) (w : SpvWorld Files)
      → Linked p hs
      → Hashed hs
      → lookup p w.blocks ≡ some b
      → has_block x w ≡ true
      → has_block x (headers_loop hashes store json hs seen w).0 ≡ true
  unfolding headers_loop
  headers_loop-known [] seen p x b w linked hashed found known = known
  headers_loop-known (h ∷ hs) (max, outs) p x b w (parent, linked) (long, hashed) found known =
      let b1 = block_after hashes store json h.block_hash (hashes.text h.prev_block) b in
      let (f, step) =
        headers_loop-step h hs b max outs w long
          (read_block-lookup h.prev_block b w (ap (λ q. lookup q w.blocks) parent ∙ found)) in
      subst (λ r. has_block x r.0 ≡ true) (sym step)
        (headers_loop-known hs _ h.block_hash x b1
          record w { files = f; blocks = insert h.block_hash b1 w.blocks } linked hashed
          (lookup-insert_same h.block_hash b1 w) (has_block-insert x h.block_hash b1 f w known))

  block_after-height :
      (h : Header) (b : Block) (n : ℕ)
      → ((block_after hashes store json h.block_hash (hashes.text h.prev_block) b).height + n)
          % 2 ^ 32
        ≡ (b.height + suc n) % 2 ^ 32
  unfolding block_after
  block_after-height h b n = omega arith

  -- Where `Read` gives the block before the first of the headers, from memory or from the storage,
  -- each of the others names the one before it, their hashes have 32 bytes, and the storage, JSON and
  -- texts of hashes work (`IsWorking`): the loop succeeds; every header then has a block in memory,
  -- that of the last of them is the result, and its height is that of the block read and the number of
  -- headers, as an int32.
  pub headers_loop-Linked :
      (h : Header) (hs : List Header) (b max : Block) (outs : List Reply) (w : SpvWorld Files)
      → Linked h.block_hash hs
      → Hashed (h ∷ hs)
      → read_block hashes store json h.prev_block w ≡ (w, ok b)
      → (w' : SpvWorld Files) × (last : Block) × (outs' : List Reply) × (headers_loop hashes store
            json
            (h ∷ hs)
            (max, outs)
            w
          ≡ (w', ok (last, outs')))
        × (lookup (tip hashes store json h.block_hash hs) w'.blocks ≡ some last)
        × (last.height ≡ (b.height + length (h ∷ hs)) % 2 ^ 32)
        × All (λ x. has_block x.block_hash w' ≡ true) (h ∷ hs)
  unfolding headers_loop block_after
  headers_loop-Linked h [] b max outs w linked (long, hashed) found =
      let b1 = block_after hashes store json h.block_hash (hashes.text h.prev_block) b in
      let (f, step) = headers_loop-step h [] b max outs w long found in
      let w1 : SpvWorld Files = record w { files = f; blocks = insert h.block_hash b1 w.blocks } in
      let stored = lookup-insert_same h.block_hash b1 w in
      (
        w1,
        b1,
        outs ++ get_data_for hashes store json h.block_hash w,
        step,
        stored,
        refl,
        (has_block-lookup h.block_hash b1 w1 stored, tt),
      )
  headers_loop-Linked h (next ∷ hs) b max outs w (parent, linked) (long, hashed) found =
      let b1 = block_after hashes store json h.block_hash (hashes.text h.prev_block) b in
      let outs1 = outs ++ get_data_for hashes store json h.block_hash w in
      let (f, step) = headers_loop-step h (next ∷ hs) b max outs w long found in
      let w1 : SpvWorld Files = record w { files = f; blocks = insert h.block_hash b1 w.blocks } in
      let stored = lookup-insert_same h.block_hash b1 w in
      let (w', last, outs', looped, at_tip, height, known) =
        headers_loop-Linked next hs b1 b1 outs1 w1 linked hashed (
          read_block-lookup next.prev_block b1 w1 (ap (λ q. lookup q w1.blocks) parent ∙ stored)) in
      (
        w',
        last,
        outs',
        step ∙ looped,
        at_tip,
        height ∙ block_after-height h b (length (next ∷ hs)),
        (
          subst (λ r. has_block h.block_hash r.0 ≡ true) looped
              (headers_loop-known (next ∷ hs) (b1, outs1) h.block_hash h.block_hash b1 w1
                (parent, linked) hashed stored (has_block-lookup h.block_hash b1 w1 stored)),
          known,
        ),
      )
