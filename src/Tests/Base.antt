-- ===== src/Tests/Base.antt =====
-- A world to test in: addresses are byte strings, a transaction is its outputs and the outputs it
-- spends, the wallet has a key for every address, and the store is an association list.
use smart_contract.Prelude.{
  Bytes, bytes_key, ascii, some, List, [], ◌∷◌, Outcome, Error, ok, or_err, ltb,
}
use smart_contract.Prelude.Dict.{Dict, lookup, insert}
use smart_contract.Protocol.{Message}
use smart_contract.Btcutil.{Btcutil}
use smart_contract.Wire.{Wire, TxOut, OutPoint}
use smart_contract.TxBuilder.{TxOutput}
use smart_contract.State.{Asset, Holding, Contract, new_holding}
use smart_contract.Inspector.{Transaction}
use smart_contract.Wallet.{Wallet}
use smart_contract.Request.Defs.{Fee, ContractRequest}
use smart_contract.Request.Transfer.{Floats}
use smart_contract.Response.Service.{StateInterface}
use smart_contract.Node.{Services, World}

instance abbrev pub plain : Btcutil Bytes
plain = record {
  encode_address = λ a. a;
  to_string = λ a. a;
  decode_address = λ s. some s;
  address_of_hash = λ h. some h;
}

pub record Tx : Type 0 where
  pub id : Bytes
  pub outs : List TxOut
  pub spends : List OutPoint

instance abbrev pub plain_wire : Wire Tx
plain_wire = record {
  tx_hash = λ tx. tx.id;
  tx_hash_string = λ tx. tx.id;
  tx_out = λ tx. tx.outs;
  previous_out_points = λ tx. tx.spends;
}

abbrev pub reply_tx : Tx
reply_tx = record { id = ascii "reply"; outs = []; spends = [] }

abbrev pub wallet : Wallet Bytes Tx Bytes
wallet = record { get = λ a. ok a; build_tx = λ key utxos outs change m. ok reply_tx }

abbrev pub state : StateInterface (Dict Bytes Contract)
state = record {
  read = λ id store. or_err (lookup id store) Error.contract_not_found;
  write = λ c store. ok (insert c.id c store);
}

abbrev pub floats : Floats
floats = record { is_positive = λ x. ltb 0 x; bch_to_satoshis = λ x. x }

abbrev pub alice : Bytes
alice = ascii "alice"

abbrev pub bob : Bytes
bob = ascii "bob"

abbrev pub carol : Bytes
carol = ascii "carol"

abbrev pub agent : Bytes
agent = ascii "agent"

abbrev pub token : Bytes
token = ascii "token"

abbrev pub fee : Fee Bytes
fee = record { address = carol; value = 100 }

abbrev pub held : Dict Bytes Holding
held = (alice, new_holding 0 alice 10) ∷ (bob, new_holding 0 bob 5) ∷ []

abbrev pub shares : Asset
shares = record {
  id = token;
  type = ascii "SHC";
  revision = 0;
  authorization_flags = [];
  voting_system = 0;
  vote_multiplier = 0;
  qty = 15;
  txn_fee_type = 0;
  txn_fee_currency = [];
  txn_fee_var = 0;
  txn_fee_fixed = 0;
  holdings = some held;
  created_at = 0;
}

abbrev pub assets : Dict Bytes Asset
assets = (token, shares) ∷ []

abbrev pub contract : Contract
contract = record {
  id = agent;
  created_at = 0;
  issuer_address = alice;
  operator_address = [];
  revision = 0;
  contract_name = ascii "Tests";
  contract_file_hash = [];
  governing_law = [];
  jurisdiction = [];
  contract_expiration = 0;
  uri = [];
  issuer_id = [];
  issuer_type = [];
  contract_operator_id = [];
  authorization_flags = [];
  voting_system = [];
  initiative_threshold = 0;
  initiative_threshold_currency = [];
  qty = 2;
  assets = some assets;
  votes = some [];
  hashes = [];
}

abbrev pub request_tx : Tx
request_tx = record { id = ascii "request"; outs = []; spends = [] }

-- A request from some senders to some receivers, as the inspector hands it on.
abbrev pub sent : List Bytes → List (TxOutput Bytes) → Message → Transaction Bytes Tx
sent senders receivers m = record {
  hash = [];
  input_addrs = senders;
  inputs = [];
  utxos = [];
  outputs = receivers;
  msg_tx = some request_tx;
  msg_proto = some m;
}

abbrev pub asked : List Bytes → List (TxOutput Bytes) → Message → ContractRequest Bytes Tx
asked senders receivers m = record {
  tx = request_tx;
  hash = request_tx.id;
  senders = senders;
  receivers = receivers;
  contract = contract;
  m = m;
}

abbrev pub services : Services Bytes Tx Bytes (Dict Bytes Contract)
services = record {
  parse = λ s. Outcome.err Error.external;
  get_tx = λ h. Outcome.err Error.external;
  wallet = wallet;
  state = state;
  floats = floats;
  fee = fee;
}

abbrev pub world : World Tx (Dict Bytes Contract)
world = record { store = (agent, contract) ∷ []; announced = [] }
