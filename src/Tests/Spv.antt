-- ===== src/Tests/Spv.antt =====
-- The node at concrete inputs, with texts of hashes that are the hashes and files in a list.
use smart_contract.Prelude.{
  ℕ, ◌≡◌, refl, true, false, Bytes, bytes_key, List, [], ◌∷◌, All, Option, none, some, Outcome, ok,
  err, external, storage_not_found, ◌⊎◌,
}
use smart_contract.Prelude.Dict.{Dict, lookup, insert, erase}
use smart_contract.Spv.Blocks.{
  Block, HashText, FileStore, BlockJson, SpvWorld, Reply, zero_block, path_of, read_file,
}
use smart_contract.Spv.Action.{continue}
use smart_contract.Spv.Handlers.{Header, Listeners, headers_loop}
use smart_contract.Spv.Peer.{Incoming, read_peer}
use smart_contract.Spv.Service.{has_block, read_block, read_missing}
use smart_contract.Spv.Chain.{IsWorking, headers_loop-Linked}
use smart_contract.Spv.Kept.{IsKeyed, read_peer-IsKeyed}

abbrev hash_text : HashText
hash_text = record { text = λ h. h; of_text = some }

abbrev read_found : Option Bytes → Outcome Bytes
read_found none = err storage_not_found
read_found (some bytes) = ok bytes

abbrev values : Dict Bytes Bytes → List Bytes
values [] = []
values ((k, v) ∷ files) = v ∷ values files

abbrev file_list : FileStore (Dict Bytes Bytes)
file_list = record {
  read = λ k files. read_found (lookup k files);
  write = λ k bytes files. ok (insert k bytes files);
  remove = λ k files. ok (erase k files);
  search = λ path files. ok (values files);
}

abbrev block_of_bytes : Bytes → Outcome Block
block_of_bytes [] = err external
block_of_bytes (height ∷ hash) = ok record { hash = hash; prev_block = []; height = height }

abbrev block_json : BlockJson
block_json = record {
  marshal_block = λ b. ok (b.height ∷ b.hash);
  unmarshal_block = block_of_bytes;
  marshal_state = λ b. ok (b.height ∷ b.hash);
  unmarshal_state = block_of_bytes;
}

abbrev first_block : Block
first_block = record { hash = 1 ∷ []; prev_block = 0 ∷ []; height = 7 }

abbrev world : SpvWorld (Dict Bytes Bytes)
world = record {
  blocks = (1 ∷ [], first_block) ∷ [];
  last_seen = some first_block;
  synced = false;
  files = [];
  heard = [];
  queue = [];
}

abbrev listeners : Listeners
listeners = record { tx = true; block = true }

-- Two headers on the first block, then no more of them.
abbrev messages : List Incoming
messages =
    Incoming.headers (
      record { block_hash = 2 ∷ []; prev_block = 1 ∷ [] }
      ∷ record { block_hash = 3 ∷ []; prev_block = 2 ∷ [] }
      ∷ [])
    ∷ Incoming.headers []
    ∷ []

read_peer-IsKeyed_example :
    IsKeyed hash_text (read_peer hash_text file_list block_json listeners messages world).0.blocks
    × ((read_peer hash_text file_list block_json listeners messages world).0.last_seen
        ≡ some first_block)
    × (((read_peer hash_text file_list block_json listeners messages world).0.synced ≡ true)
        ⊎ ((read_peer hash_text file_list block_json listeners messages world).0.synced ≡ false))
read_peer-IsKeyed_example =
    read_peer-IsKeyed hash_text file_list block_json listeners messages world (refl, tt)

-- 32 bytes, the same one.
abbrev hash_of : ℕ → Bytes
hash_of x =
    x ∷ x ∷ x ∷ x ∷ x ∷ x ∷ x ∷ x ∷ x ∷ x ∷ x ∷ x ∷ x ∷ x ∷ x ∷ x ∷ x ∷ x ∷ x ∷ x ∷ x ∷ x ∷ x ∷ x
    ∷ x ∷ x ∷ x ∷ x ∷ x ∷ x ∷ x ∷ x ∷ []

abbrev second : Header
second = record { block_hash = hash_of 2; prev_block = hash_of 1 }

abbrev third : Header
third = record { block_hash = hash_of 3; prev_block = hash_of 2 }

abbrev files_IsWorking : IsWorking hash_text file_list block_json
files_IsWorking = record {
  reads = λ h long. refl;
  marshals = λ b. (b.height ∷ b.hash, refl);
  writes = λ k v files. (insert k v files, refl);
}

-- The first block in a file, and none in memory.
abbrev stored_block : Block
stored_block = record { hash = hash_of 1; prev_block = []; height = 7 }

abbrev stored_world : SpvWorld (Dict Bytes Bytes)
stored_world = record world { blocks = []; files = (path_of (hash_of 1), 7 ∷ hash_of 1) ∷ [] }

stored_read :
    read_block hash_text file_list block_json (hash_of 1) stored_world
    ≡ (stored_world, ok stored_block)
unfolding read_block read_missing read_file continue lookup smart_contract.Prelude.bytes_eq
stored_read = refl

headers_loop-Linked_example :
    (w' : SpvWorld (Dict Bytes Bytes)) × (last : Block) × (outs : List Reply) × (headers_loop
        hash_text file_list block_json
        (second ∷ third ∷ [])
        (zero_block, [])
        stored_world
      ≡ (w', ok (last, outs)))
    × (lookup (hash_of 3) w'.blocks ≡ some last)
    × (last.height ≡ 9)
    × All (λ x. has_block x.block_hash w' ≡ true) (second ∷ third ∷ [])
headers_loop-Linked_example =
    headers_loop-Linked hash_text file_list block_json files_IsWorking second (third ∷ [])
      stored_block zero_block [] stored_world (refl, tt) (refl, (refl, tt)) stored_read
