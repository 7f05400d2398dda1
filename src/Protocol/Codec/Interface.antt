-- ===== src/Protocol/Codec/Interface.antt =====
-- What a type gives for the interface `PayloadMessage`, and a message type for `OpReturnMessage`:
-- its `Bytes`, `Write` and `Len`, with the laws that its implementation proves.
use smart_contract.Prelude.{ℕ, ◌≤◌, ◌≡◌, sym, ap, ◌∙◌, Bytes, List, ◌∷◌, All, length}
use smart_contract.Protocol.Codec.{
  Chunk, text, word, Statement, Written, written, run, buffer, copy,
}
use smart_contract.Protocol.Codec.Laws.{
  FitsChunk, chunk_shapes, statement_shapes, apply_all, run-buffer, length-buffer, total,
}

pub record Format (M : Type 0) : Type 1 where
  pub writes : M → List Chunk
  pub reads : List (Statement M)
  pub count : ℕ
  pub len : M → ℕ
  -- The header has the length that `Write` takes off.
  pub Sized : M → Type 0
  pub agree : (m : M) → Sized m → chunk_shapes (writes m) ≡ statement_shapes reads
  -- What a reader of the bytes has, field by field.
  pub as_read : M → M
  -- Nothing of the struct that `Write` reads into is left, and each value comes to its own field.
  pub reads_back : (old m : M) → apply_all reads (writes m) old ≡ as_read m
  pub len-count : (m : M) → Sized m → len m ≡ count
  pub total-count : total (statement_shapes reads) ≡ count

pub record Codec (M : Type 0) : Type 1 where
  pub format : Format M
  -- The value of the `New` function of the type.
  pub new : M
  pub header : M → Bytes
  pub action_prefix : M → Bytes
  -- Every message starts with its header, the protocol's number and its action prefix.
  pub head_of :
      (m : M)
      → (id : ℕ) × (rest : List Chunk) × (format.writes m
          ≡ text (header m) (length (header m)) ∷ word 4 id ∷ text (action_prefix m) 2 ∷ rest)
  pub count_long : 9 ≤ format.count

module _ {M : Type 0} (format : Format M) where
  -- The fields have the widths of the format.
  abbrev pub Fits : M → Type 0
  Fits m = format.Sized m × All FitsChunk (format.writes m)

  -- `m.Bytes()`
  unfoldable pub message_bytes : M → Bytes
  message_bytes m = buffer (format.writes m)

  -- `m.Write(b)`
  unfoldable pub message_write : M → Bytes → Written M
  message_write m b = run format.reads format.count b m

  -- `m.Read(b)`: the count that it returns, and what b holds after it.
  unfoldable pub message_read : M → Bytes → ℕ × Bytes
  message_read m b = (length b, copy b (message_bytes m))

  pub message_write-message_bytes :
      (old m : M)
      → Fits m
      → message_write old (message_bytes m) ≡ written format.count (format.as_read m)
  unfolding message_write message_bytes
  message_write-message_bytes old m (sized, fits) =
      run-buffer format.reads (format.writes m) format.count old fits (format.agree m sized)
      ∙ ap (written format.count) (format.reads_back old m)

  pub length-message_bytes : (m : M) → Fits m → length (message_bytes m) ≡ format.count
  unfolding message_bytes
  length-message_bytes m (sized, fits) =
      length-buffer (format.writes m) fits ∙ ap total (format.agree m sized) ∙ format.total-count

  pub length-message_bytes-len : (m : M) → Fits m → length (message_bytes m) ≡ format.len m
  length-message_bytes-len m fits = length-message_bytes m fits ∙ sym (format.len-count m fits.0)
