-- ===== src/Tests/Store.antt =====
-- The state service at concrete inputs: a storage that is an association list, and a text of a contract
-- that holds its hashes, each byte raised by one and each hash closed by a 0.
use smart_contract.Prelude.{
  ℕ, zero, suc, Bytes, bytes_eq_iff, bytes_key, ascii, List, [], ◌∷◌, ◌++◌, ◌≡◌, refl, ◌≢◌, ◌∙◌, ap,
  Error, ok, or_err, arith,
}
use smart_contract.Prelude.Dict.{Dict, lookup, insert, lookup-insert}
use smart_contract.State.{Contract}
use smart_contract.Store.{Storage, Json, IsFaithful, build_path, read, write, read-write}
use smart_contract.Tests.Base.{contract}

abbrev files_storage : Storage (Dict Bytes Bytes)
files_storage = record {
  read = λ key files. or_err (lookup key files) Error.contract_not_found;
  write = λ key bytes files. ok (insert key bytes files);
}

closed : Bytes → Bytes → Bytes
closed [] rest = 0 ∷ rest
closed (x ∷ hash) rest = suc x ∷ closed hash rest

text_of : List Bytes → Bytes
unfolding closed
text_of [] = []
text_of (hash ∷ hashes) = closed hash (text_of hashes)

hashes_from : Bytes → Bytes → List Bytes
hashes_from seen [] = []
hashes_from seen (zero ∷ text) = seen ∷ hashes_from [] text
hashes_from seen (suc x ∷ text) = hashes_from (seen ++ x ∷ []) text

abbrev json : Json
unfolding text_of hashes_from
json = record {
  marshal = λ c. ok (text_of c.hashes);
  unmarshal = λ text. ok (record contract { hashes = hashes_from [] text });
}

append_assoc : (xs : Bytes) (x : ℕ) (ys : Bytes) → (xs ++ x ∷ []) ++ ys ≡ xs ++ x ∷ ys
append_assoc [] x ys = refl
append_assoc (y ∷ xs) x ys = ap (λ zs. y ∷ zs) (append_assoc xs x ys)

hashes_from-closed :
    (seen hash text : Bytes)
    → hashes_from seen (closed hash text) ≡ (seen ++ hash) ∷ hashes_from [] text
unfolding hashes_from closed
hashes_from-closed seen [] text = ap (λ s. s ∷ hashes_from [] text) (sym_nil seen)
  where
    sym_nil : (xs : Bytes) → xs ≡ xs ++ []
    sym_nil [] = refl
    sym_nil (x ∷ xs) = ap (λ ys. x ∷ ys) (sym_nil xs)
hashes_from-closed seen (x ∷ hash) text =
    hashes_from-closed (seen ++ x ∷ []) hash text
    ∙ ap (λ s. s ∷ hashes_from [] text) (append_assoc seen x hash)

hashes_from-text_of : (hashes : List Bytes) → hashes_from [] (text_of hashes) ≡ hashes
unfolding hashes_from text_of
hashes_from-text_of [] = refl
hashes_from-text_of (hash ∷ hashes) =
    hashes_from-closed [] hash (text_of hashes) ∙ ap (λ hs. hash ∷ hs) (hashes_from-text_of hashes)

faithful : IsFaithful files_storage
faithful = record {
  read_written = λ key bytes files after e.
      ground (arith, e, lookup-insert key key bytes files, (bytes_eq_iff key key).1 refl);
  read_other = λ key bytes files after e other differ.
      ground (arith, e, lookup-insert other key bytes files, bytes_eq_iff other key, differ);
}

abbrev answered : Contract
answered = record contract { hashes = ascii "ab" ∷ [] }

abbrev stored : Dict Bytes Bytes
unfolding build_path text_of closed
stored = (build_path answered.id, text_of answered.hashes) ∷ []

written : write files_storage json answered [] ≡ ok stored
unfolding write stored json insert
written = refl

kept : (bytes : Bytes) → json.marshal answered ≡ ok bytes → json.unmarshal bytes ≡ ok answered
unfolding json
kept bytes e = ground (arith, e, hashes_from-text_of answered.hashes)

read-write_example :
    (read files_storage json answered.id stored ≡ ok answered)
    × ((id : Bytes)
        → id ≢ answered.id
        → read files_storage json id stored ≡ read files_storage json id [])
read-write_example = read-write files_storage json faithful answered [] stored kept written
