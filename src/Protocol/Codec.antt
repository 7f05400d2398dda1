-- ===== src/Protocol/Codec.antt =====
-- `BaseMessage` in `pkg/protocol/messages.go`, and the statements that the methods `Bytes` and
-- `Write` of the messages are made of.
pub mod Laws
pub mod Interface
pub mod AssetDefinition
pub mod AssetCreation
pub mod AssetModification
pub mod ContractOffer
pub mod ContractFormation
pub mod ContractAmendment
pub mod Order
pub mod Freeze
pub mod Thaw
pub mod Confiscation
pub mod Reconciliation
pub mod Initiative
pub mod Referendum
pub mod VoteMessage
pub mod BallotCast
pub mod BallotCounted
pub mod Result
pub mod TextMessage
pub mod Rejection
pub mod Establishment
pub mod Addition
pub mod Alteration
pub mod Removal
pub mod Send
pub mod Exchange
pub mod Swap
pub mod Settlement
use smart_contract.Prelude.{
  ℕ, zero, suc, ◌+◌, ◌-◌, ◌*◌, ◌/◌, ◌%◌, Bytes, List, [], ◌∷◌, ◌++◌, ltb, ◌==◌, if◌then◌else◌,
  length, take, drop,
}

-- `n` zero bytes, as `make([]byte, n)` gives.
abbrev pub zeros : ℕ → Bytes
zeros zero = []
zeros (suc n) = 0 ∷ zeros n

-- `BaseMessage.pad`: a slice that is too long is left as it is.
unfoldable pub pad : Bytes → ℕ → Bytes
pad b l = if length b == l then b else b ++ zeros (l - length b)

-- `BaseMessage.write` of an unsigned number of `w` bytes, or of the bits of a `float32`:
-- `binary.Write` in big-endian order.
unfoldable pub big_endian : ℕ → ℕ → Bytes
big_endian zero v = []
big_endian (suc w) v = big_endian w (v / 256) ++ (v % 256) ∷ []

-- What `binary.Read` makes of the bytes.
unfoldable pub from_big_endian : ℕ → Bytes → ℕ
from_big_endian v [] = v
from_big_endian v (b ∷ bs) = from_big_endian (v * 256 + b) bs

abbrev trim_left : Bytes → Bytes
trim_left [] = []
trim_left (zero ∷ bs) = trim_left bs
trim_left (suc b ∷ bs) = suc b ∷ bs

abbrev keep_nonzero : ℕ → Bytes → Bytes
keep_nonzero zero [] = []
keep_nonzero zero (b ∷ bs) = 0 ∷ b ∷ bs
keep_nonzero (suc a) bs = suc a ∷ bs

abbrev trim_right : Bytes → Bytes
trim_right [] = []
trim_right (b ∷ bs) = keep_nonzero b (trim_right bs)

-- `bytes.Trim(b, "\x00")`
unfoldable pub trim : Bytes → Bytes
trim b = trim_left (trim_right b)

-- One call of `m.write` in a `Bytes`: of `m.pad(v, n)`, or of a number v of w bytes.
pub data Chunk : Type 0 where
  text : Bytes → ℕ → Chunk
  word : ℕ → ℕ → Chunk

abbrev pub chunk_bytes : Chunk → Bytes
chunk_bytes (text v n) = pad v n
chunk_bytes (word w v) = big_endian w v

-- The bytes that the buffer holds after these calls.
abbrev pub buffer : List Chunk → Bytes
buffer [] = []
buffer (c ∷ cs) = chunk_bytes c ++ buffer cs

-- One field of a `Write`, with the assignment to it. `trimmed n` makes n bytes, fills them by
-- `readLen`, and trims them; `untrimmed n` leaves the trim out; `number w` is `m.read`, whose
-- error the messages do not look at; `checked w` is one whose error ends the method.
pub data Statement {ℓ} (M : Type ℓ) : Type ℓ where
  trimmed untrimmed : ℕ → (M → Bytes → M) → Statement M
  number checked : ℕ → (M → ℕ → M) → Statement M

-- What `Write` leaves in its receiver, with the count or with the error of `readLen`.
pub data Written {ℓ} (M : Type ℓ) : Type ℓ where
  failed : M → Written M
  written : ℕ → M → Written M

module _ {ℓ} {M : Type ℓ} where
  -- The statements of a `Write` on what the buffer still holds, and its last line `return count, nil`.
  unfoldable pub run : List (Statement M) → ℕ → Bytes → M → Written M
  run [] count b m = written count m
  run (trimmed n set ∷ ss) count b m =
      if ltb (length b) n
      then failed (set m (b ++ zeros (n - length b)))
      else run ss count (drop n b) (set m (trim (take n b)))
  run (untrimmed n set ∷ ss) count b m =
      if ltb (length b) n
      then failed (set m (b ++ zeros (n - length b)))
      else run ss count (drop n b) (set m (take n b))
  run (number w set ∷ ss) count b m =
      run ss count (drop w b) (if ltb (length b) w then m else set m (from_big_endian 0 (take w b)))
  run (checked w set ∷ ss) count b m =
      if ltb (length b) w
      then failed m
      else run ss count (drop w b) (set m (from_big_endian 0 (take w b)))

-- `copy(b, from)`: the bytes that `b` holds after it.
unfoldable pub copy : Bytes → Bytes → Bytes
copy [] from = []
copy (x ∷ b) [] = x ∷ b
copy (x ∷ b) (y ∷ from) = y ∷ copy b from
