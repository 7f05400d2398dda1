-- ===== src/State/Contracts.antt =====
-- `contract.go`: the state of a contract.
use smart_contract.Prelude.{
  ℕ, ◌+◌, ◌*◌, Bytes, Bool, false, true, ◌||◌, ◌==◌, if◌then◌else◌, Option, none, some, List, [],
  ◌∷◌, ◌++◌, hex, string_of_byte, bytes_eq, bytes_key,
}
use smart_contract.Prelude.Dict.{Dict, GoMap, get}
use smart_contract.Protocol.{ContractOffer, ContractFormation, Float32}
use smart_contract.Protocol.RejectionCode
use smart_contract.Btcutil.{Btcutil}
use smart_contract.State.Holdings.{Holding}
use smart_contract.State.Assets.{Asset}
use smart_contract.State.Votes.{Vote, Ballot, is_open}

pub record Contract : Type 0 where
  pub id : Bytes
  pub created_at : ℕ
  pub issuer_address : Bytes
  pub operator_address : Bytes
  pub revision : ℕ
  pub contract_name : Bytes
  pub contract_file_hash : Bytes
  pub governing_law : Bytes
  pub jurisdiction : Bytes
  pub contract_expiration : ℕ
  pub uri : Bytes
  pub issuer_id : Bytes
  pub issuer_type : Bytes
  pub contract_operator_id : Bytes
  pub authorization_flags : Bytes
  pub voting_system : Bytes
  pub initiative_threshold : Float32
  pub initiative_threshold_currency : Bytes
  pub qty : ℕ
  pub assets : GoMap Bytes Asset
  pub votes : GoMap Bytes Vote
  pub hashes : List Bytes

module _ {Addr : Type 0} ⦃b : Btcutil Addr⦄ where
  -- The operator's address, empty if there is none.
  abbrev pub encode_operator : Option Addr → Bytes
  encode_operator none = []
  encode_operator (some a) = b.encode_address a

  -- `nano` is `time.Now().UnixNano()`; the transaction argument of the source is not read.
  unfoldable pub new_contract : ℕ → Addr → Addr → Option Addr → ContractOffer → Contract
  new_contract nano contract_address issuer_address operator_address m = record {
    id = b.encode_address contract_address;
    created_at = nano;
    issuer_address = b.encode_address issuer_address;
    operator_address = encode_operator operator_address;
    revision = 0;
    contract_name = m.contract_name;
    contract_file_hash = hex m.contract_file_hash;
    governing_law = m.governing_law;
    jurisdiction = m.jurisdiction;
    contract_expiration = m.contract_expiration;
    uri = m.uri;
    issuer_id = m.issuer_id;
    issuer_type = if m.issuer_type == 0 then [] else string_of_byte m.issuer_type;
    contract_operator_id = m.contract_operator_id;
    authorization_flags = m.authorization_flags;
    voting_system = if m.voting_system == 0 then [] else string_of_byte m.voting_system;
    initiative_threshold = m.initiative_threshold;
    initiative_threshold_currency = m.initiative_threshold_currency;
    qty = m.restricted_qty;
    assets = some [];
    votes = some [];
    hashes = [];
  }

  -- `c.Address()`; `none` is the error of `DecodeAddress`.
  abbrev pub contract_address : Contract → Option Addr
  contract_address c = b.decode_address c.id

-- The source writes through the pointer `c`; the new contract is returned here.
unfoldable pub edit_contract : Contract → ContractFormation → Contract
edit_contract c cf = record c {
  contract_name = cf.contract_name;
  contract_file_hash = cf.contract_file_hash;
  governing_law = cf.governing_law;
  jurisdiction = cf.jurisdiction;
  contract_expiration = cf.contract_expiration;
  uri = cf.uri;
  revision = cf.contract_revision;
  issuer_id = cf.issuer_id;
  issuer_type = string_of_byte cf.issuer_type;
  contract_operator_id = cf.contract_operator_id;
  authorization_flags = cf.authorization_flags;
  voting_system = string_of_byte cf.voting_system;
  initiative_threshold = cf.initiative_threshold;
  initiative_threshold_currency = cf.initiative_threshold_currency;
  qty = cf.restricted_qty;
}

-- `Flags`: two bytes, big endian; any other length gives 0.
big_endian : Bytes → ℕ
big_endian (x ∷ y ∷ []) = x * 256 + y
big_endian _ = 0

abbrev pub flags : Contract → ℕ
unfolding big_endian
flags c = big_endian c.authorization_flags

abbrev pub is_issuer : Contract → Bytes → Bool
is_issuer c address = bytes_eq c.issuer_address address

abbrev pub is_operator : Contract → Bytes → Bool
is_operator c address = bytes_eq c.operator_address address

abbrev pub is_some {ℓ} : {A : Type ℓ} → Option A → Bool
is_some none = false
is_some (some a) = true

unfoldable pub owns_any : Bytes → Dict Bytes Asset → Bool
owns_any address [] = false
owns_any address ((k, asset) ∷ d) = is_some (get address asset.holdings) || owns_any address d

-- The loop over a nil map makes no round.
unfoldable pub is_owner : Contract → Bytes → Bool
is_owner c address = elim c.assets [ none ↦ false | some d ↦ owns_any address d ]

unfoldable pub can_vote : ℕ → Contract → Vote → Ballot → ℕ
can_vote nano c v ballot =
    if is_owner c ballot.address
    then (if is_open nano v then RejectionCode.ok else RejectionCode.vote_closed)
    else RejectionCode.unknown_address

-- The holders of one asset with a balance, in the order of the map.
unfoldable pub holders : Dict Bytes Holding → List Bytes
holders [] = []
holders ((address, h) ∷ d) = if h.balance == 0 then holders d else address ∷ holders d

unfoldable pub users_of : Dict Bytes Asset → List Bytes
users_of [] = []
users_of ((k, asset) ∷ d) = elim asset.holdings [ none ↦ [] | some hs ↦ holders hs ] ++ users_of d

unfoldable pub get_users : Contract → List Bytes
get_users c = elim c.assets [ none ↦ [] | some d ↦ users_of d ]

-- `KnownTX`, by the text of the transaction's hash.
unfoldable pub has_hash : List Bytes → Bytes → Bool
has_hash [] tx_hash = false
has_hash (hash ∷ hashes) tx_hash = bytes_eq hash tx_hash || has_hash hashes tx_hash

unfoldable pub known_tx : Contract → Bytes → Bool
known_tx c tx_hash = has_hash c.hashes tx_hash
