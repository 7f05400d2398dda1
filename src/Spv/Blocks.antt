-- ===== src/Spv/Blocks.antt =====
-- `block_repository.go` and `state.go`: blocks and the last one seen, as JSON texts in a storage. The
-- storage, JSON and the texts of hashes are not modelled: the node takes their operations.
use smart_contract.Prelude.{
  ℕ, ◌+◌, ◌%◌, ◌^◌, Bool, ltb, Bytes, ascii, List, [], ◌∷◌, ◌++◌, Option, Outcome, panic, err, ok,
  Error, storage_not_found, block_not_found, state_not_found,
}
use smart_contract.Prelude.Dict.{Dict}
use smart_contract.Spv.Action.{Action, done, lift, ◌>>=◌}

-- An `int32` is its bit pattern; the order is that of the signed numbers.
unfoldable pub less : ℕ → ℕ → Bool
less a b = ltb ((a + 2 ^ 31) % 2 ^ 32) ((b + 2 ^ 31) % 2 ^ 32)

pub record Block : Type 0 where
  pub hash : Bytes
  pub prev_block : Bytes
  pub height : ℕ

abbrev pub zero_block : Block
zero_block = record { hash = []; prev_block = []; height = 0 }

-- `String` and `NewHashFromStr` of `chainhash`, where `none` is an error.
pub record HashText : Type 0 where
  pub text : Bytes → Bytes
  pub of_text : Bytes → Option Bytes

-- `storage.Storage`; `storage_not_found` is `storage.ErrNotFound`. `search` is given the path.
pub record FileStore (Files : Type 0) : Type 0 where
  pub read : Bytes → Files → Outcome Bytes
  pub write : Bytes → Bytes → Files → Outcome Files
  pub remove : Bytes → Files → Outcome Files
  pub search : Bytes → Files → Outcome (List Bytes)

-- `json.Marshal` and `json.Unmarshal` of a block, and of the state, which is the last block seen.
pub record BlockJson : Type 0 where
  pub marshal_block : Block → Outcome Bytes
  pub unmarshal_block : Bytes → Outcome Block
  pub marshal_state : Block → Outcome Bytes
  pub unmarshal_state : Bytes → Outcome Block

-- What a listener was handed.
pub data Heard : Type 0 where
  block tx : Bytes → Heard

-- The messages that the node sends.
pub data Reply : Type 0 where
  get_block get_tx : Bytes → Reply
  get_headers : List Bytes → Reply
  ver_ack : Reply
  pong : ℕ → Reply

-- A `BlockService` with its files, what the listeners have been handed, and what is queued for the
-- peer. `last_seen` is the field State, where `none` is nil.
pub record SpvWorld (Files : Type 0) : Type 0 where
  pub blocks : Dict Bytes Block
  pub last_seen : Option Block
  pub synced : Bool
  pub files : Files
  pub heard : List Heard
  pub queue : List Reply

abbrev pub path_of : Bytes → Bytes
path_of id = ascii "blocks/" ++ id

abbrev state_path : Bytes
state_path = ascii "state.json"

-- `if err == storage.ErrNotFound { err = e }`
abbrev not_found_as : {A : Type 0} → Error → Outcome A → Outcome A
not_found_as e panic = panic
not_found_as e (err storage_not_found) = err e
not_found_as e (err why) = err why
not_found_as e (ok a) = ok a

module _ {Files : Type 0} (store : FileStore Files) (json : BlockJson) where
  abbrev pub stored : SpvWorld Files → Outcome Files → SpvWorld Files × Outcome (Unit {0})
  stored w panic = (w, panic)
  stored w (err e) = (w, err e)
  stored w (ok files) = (record w { files = files }, ok tt)

  -- `BlockRepository.Write`
  unfoldable pub write_file : Block → Action (SpvWorld Files) (Unit {0})
  write_file b = lift (json.marshal_block b) >>= λ bytes w.
      stored w (store.write (path_of b.hash) bytes w.files)

  -- `BlockRepository.Read`
  unfoldable pub read_file : Bytes → Action (SpvWorld Files) Block
  read_file id =
      (λ w. (w, not_found_as block_not_found (store.read (path_of id) w.files))) >>= λ bytes.
      lift (json.unmarshal_block bytes)

  -- `BlockRepository.Remove`
  unfoldable pub remove_file : Block → Action (SpvWorld Files) (Unit {0})
  remove_file b w = stored w (store.remove (path_of b.hash) w.files)

  unmarshal_all : List Bytes → Action (SpvWorld Files) (List Block)
  unmarshal_all [] = done []
  unmarshal_all (bytes ∷ rest) =
      lift (json.unmarshal_block bytes) >>= λ b. unmarshal_all rest >>= λ bs. done (b ∷ bs)

  -- `BlockRepository.All`
  unfoldable pub all_files : Action (SpvWorld Files) (List Block)
  unfolding unmarshal_all
  all_files = (λ w. (w, store.search (ascii "blocks") w.files)) >>= unmarshal_all

  -- `StateRepository.Write`
  unfoldable pub write_state : Block → Action (SpvWorld Files) (Unit {0})
  write_state b =
      lift (json.marshal_state b) >>= λ bytes w. stored w (store.write state_path bytes w.files)

  -- `StateRepository.Read`
  unfoldable pub read_state : Action (SpvWorld Files) Block
  read_state = (λ w. (w, not_found_as state_not_found (store.read state_path w.files))) >>= λ bytes.
      lift (json.unmarshal_state bytes)
