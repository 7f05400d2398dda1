-- ===== src/Store.antt =====
-- `internal/app/state/state_service.go`: contracts as JSON texts in a storage. Storage and JSON are not
-- modelled: a client takes their operations; what it relies on of the storage is in `IsFaithful`.
use smart_contract.Prelude.{
  drop, Bool-cases, bytes_eq, bytes_eq_iff, bytes_eq-ne, Bytes, ascii, ◌++◌, ◌≡◌, ◌≢◌, inl, inr, ap,
  ◌∙◌, sym, Outcome, ok, ◌>>=◌, >>=-eq-ok, arith,
}
use smart_contract.State.{Contract}
use smart_contract.Response.Service.{StateInterface}
use smart_contract.Node.Replay.{IsLawful}

-- `storage.ReadWriter`: `contract_not_found` stands for `storage.ErrNotFound`, which the service
-- turns into `ErrContractNotFound`.
pub record Storage (Files : Type 0) : Type 0 where
  pub read : Bytes → Files → Outcome Bytes
  pub write : Bytes → Bytes → Files → Outcome Files

-- `json.Marshal` and `json.Unmarshal` of a contract.
pub record Json : Type 0 where
  pub marshal : Contract → Outcome Bytes
  pub unmarshal : Bytes → Outcome Contract

-- A storage gives back what was written under a key, and keeps the rest.
pub record IsFaithful {Files : Type 0} (storage : Storage Files) : Type 0 where
  pub read_written :
      (key bytes : Bytes) (files after : Files)
      → storage.write key bytes files ≡ ok after
      → storage.read key after ≡ ok bytes
  pub read_other :
      (key bytes : Bytes) (files after : Files)
      → storage.write key bytes files ≡ ok after
      → (other : Bytes) → other ≢ key
      → storage.read other after ≡ storage.read other files

-- `buildPath`
unfoldable pub build_path : Bytes → Bytes
build_path id = ascii "contracts/" ++ id

module _ {Files : Type 0} (storage : Storage Files) (json : Json) where
  unfoldable pub read : Bytes → Files → Outcome Contract
  read id files = do bytes ← storage.read (build_path id) files; json.unmarshal bytes

  unfoldable pub write : Contract → Files → Outcome Files
  write c files = do bytes ← json.marshal c; storage.write (build_path c.id) bytes files

  -- The service as the interface that the other services use.
  abbrev pub state_service : StateInterface Files
  state_service = record { read = read; write = write }

  build_path-injective : (i j : Bytes) → build_path i ≡ build_path j → i ≡ j
  unfolding build_path
  build_path-injective i j e = ap (drop 10) e

  -- With a storage that keeps what is written, a read of a contract that was written gives what JSON
  -- makes of the contract's text, and a read of any other identifier gives what it gave before.
  read-write_text :
      IsFaithful storage
      → (c : Contract) (files after : Files) → write c files ≡ ok after
      → ((bytes : Bytes) × (json.marshal c ≡ ok bytes) × (read c.id after ≡ json.unmarshal bytes))
        × ((id : Bytes) → id ≢ c.id → read id after ≡ read id files)
  unfolding read write
  read-write_text faithful c files after wrote =
      let (bytes, marshalled, stored) = >>=-eq-ok (json.marshal c) _ wrote in
      let path = build_path c.id in
      (
        (
          bytes,
          marshalled,
          ap (λ o. o >>= json.unmarshal) (faithful.read_written path bytes files after stored),
        ),
        λ id other.
            ap (λ o. o >>= json.unmarshal)
              (faithful.read_other path bytes files after stored (build_path id)
                (λ e. other (build_path-injective id c.id e))),
      )

  -- With a storage that keeps what is written, and for a contract that JSON gives back from its text: a
  -- read of the contract after it was written gives the whole contract back, and a read of any other
  -- identifier gives what it gave before.
  pub read-write :
      IsFaithful storage
      → (c : Contract) (files after : Files)
      → ((bytes : Bytes) → json.marshal c ≡ ok bytes → json.unmarshal bytes ≡ ok c)
      → write c files ≡ ok after
      → (read c.id after ≡ ok c) × ((id : Bytes) → id ≢ c.id → read id after ≡ read id files)
  read-write faithful c files after kept wrote =
      let ((bytes, marshalled, found), others) = read-write_text faithful c files after wrote in
      (found ∙ kept bytes marshalled, others)

  -- Where JSON gives back the hashes of every contract that it takes, the service keeps what the other
  -- services ask of a store.
  pub state_service-IsLawful :
      IsFaithful storage
      → ((c : Contract) (bytes : Bytes)
          → json.marshal c ≡ ok bytes
          → (d : Contract) × (json.unmarshal bytes ≡ ok d) × (d.hashes ≡ c.hashes))
      → IsLawful state_service
  state_service-IsLawful faithful keeps = record {
    read-write = λ c files after wrote id d found.
        let ((bytes, marshalled, read_text), others) =
          read-write_text faithful c files after wrote in
        let (d', parsed, hashes) = keeps c bytes marshalled in
        let found' : read c.id after ≡ ok d' = read_text ∙ parsed in
        elim (Bool-cases (bytes_eq id c.id)) [
          | inl same ↦ inl (ground (arith, found, found', hashes, (bytes_eq_iff id c.id).0 same))
          | inr apart ↦ inr (sym (others id (bytes_eq-ne id c.id apart)) ∙ found)
        ];
  }
