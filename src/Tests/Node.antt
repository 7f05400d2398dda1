-- ===== src/Tests/Node.antt =====
-- A node at concrete inputs: Alice sends 4 of her 10 tokens to Bob, from the network's transaction to
-- the stored contract.
use smart_contract.Prelude.{
  ℕ, Bytes, bytes_eq, bytes_key, ascii, none, some, [], ◌∷◌, ltb, if◌then◌else◌, err, Error,
  ok-injective, subst, get_elem?, ◌++◌, ◌≡◌, refl, ◌≢◌, inl, inr, ok, arith, Bool-cases,
}
use smart_contract.Prelude.Dict.{Dict, lookup, insert, lookup-insert}
use smart_contract.Protocol.{Message}
use smart_contract.Wire.{TxOut}
use smart_contract.TxBuilder.{
  Utxo, pay_to, new_utxo_from_tx, hash_address, public_address, value_from, utxos_value, addresses,
  for_address,
}
use smart_contract.State.{Contract, known_tx, has_hash, new_holding}
use smart_contract.TxBuilder.Plan.{value_of}
use smart_contract.Wallet.{Wallet, key_store_get}
use smart_contract.Request.Defs.{ContractResponse}
use smart_contract.Inspector.{
  Transaction, is_tokenized_op_return, new_protocol_message, find_tokenized_protocol,
  get_outputs_from, make_transaction, build_inputs, build_from_outputs, promote_transaction,
}
use smart_contract.Request.Service.{pre_filter, change_or}
use smart_contract.Request.Service as Request
use smart_contract.Request.Transfer.{handle_send, build_send_outputs}
use smart_contract.Response.Service as Response
use smart_contract.Response.Handlers.{
  settlement_handler, set_balances, output_address, holding_or_new, clear_expired, put_holdings,
}
use smart_contract.Validator.Transfer.{validate_send, in_force}
use smart_contract.Validator.Service.{
  Verdict, find_contract, is_permitted, run_validator, judge, check_contract, continue_check,
  check_and_fetch,
}
use smart_contract.Validator.Acceptance.{Accepted, check_and_fetch-Accepted}
use smart_contract.Node.{Services, World, act, handle_transaction, steps, settle_errors, handle}
use smart_contract.Node.Steps.{Handled, handle-Handled}
use smart_contract.Node.Sends.{CarriedOut, send_request, accepted_send-CarriedOut}
use smart_contract.Node.Replay.{IsLawful, HasNoHashes, Reachable, replay_never_ignored}
use smart_contract.Tests.Base.{
  plain, plain_wire, Tx, token, floats, fee, shares, contract, wallet, state, reply_tx,
}
use smart_contract.Tests.Messages.{send}

-- The hash of a public key, the same byte 20 times.
abbrev hash_of : ℕ → Bytes
hash_of x = x ∷ x ∷ x ∷ x ∷ x ∷ x ∷ x ∷ x ∷ x ∷ x ∷ x ∷ x ∷ x ∷ x ∷ x ∷ x ∷ x ∷ x ∷ x ∷ x ∷ []

abbrev pub alice : Bytes
alice = hash_of 1

abbrev bob : Bytes
bob = hash_of 2

abbrev pub agent : Bytes
agent = hash_of 9

-- A script that pays to the hash of a public key, and one that carries a message.
abbrev pub script_of : Bytes → Bytes
script_of hash = 0x76 ∷ 0xa9 ∷ 0x14 ∷ (hash ++ 0x88 ∷ 0xac ∷ [])

abbrev message_script : Bytes
message_script =
    0x6a ∷ 18 ∷ 0 ∷ 0 ∷ 0 ∷ 0x20 ∷ 0 ∷ 0 ∷ 0 ∷ 0 ∷ 0 ∷ 0 ∷ 0 ∷ 0 ∷ 0 ∷ 0 ∷ 0 ∷ 0 ∷ 0 ∷ 0 ∷ []

abbrev out_to : Bytes → ℕ → TxOut
out_to hash v = record { value = v; pk_script = script_of hash }

abbrev funding_tx : Tx
funding_tx = record { id = ascii "funding"; outs = out_to alice 5000 ∷ []; spends = [] }

abbrev send_tx : Tx
send_tx = record {
  id = ascii "send";
  outs = out_to agent 2000 ∷ out_to bob 546 ∷ record { value = 0; pk_script = message_script } ∷ [];
  spends = record { hash = ascii "funding"; index = 0 } ∷ [];
}

abbrev services : Services Bytes Tx Bytes (Dict Bytes Contract)
services = record {
  parse = λ s. ok (Message.send send);
  get_tx = λ h. ok funding_tx;
  wallet = wallet;
  state = state;
  floats = floats;
  fee = fee;
}

abbrev contract_with : ℕ → ℕ → Contract
contract_with n m = record contract {
  id = agent;
  assets = some (
      (
        token,
        record shares {
          holdings = some ((alice, new_holding 0 alice n) ∷ (bob, new_holding 0 bob m) ∷ []);
        },
      )
      ∷ []);
}

abbrev before : World Tx (Dict Bytes Contract)
before = record { store = (agent, contract_with 10 5) ∷ []; announced = [] }

abbrev after : World Tx (Dict Bytes Contract)
after = record { store = (agent, contract_with 6 9) ∷ []; announced = reply_tx ∷ [] }

handled : handle services 100 200 send_tx before ≡ ok after
unfolding handle steps settle_errors handle_transaction act make_transaction find_tokenized_protocol
    is_tokenized_op_return new_protocol_message get_outputs_from new_utxo_from_tx hash_address
    public_address pre_filter promote_transaction build_inputs build_from_outputs addresses
    check_and_fetch find_contract continue_check check_contract for_address utxos_value value_from
    known_tx has_hash is_permitted run_validator judge validate_send in_force lookup insert bytes_eq
    Request.process Request.run_handler handle_send build_send_outputs Response.process
    Response.run_handler settlement_handler set_balances output_address holding_or_new clear_expired
    put_holdings
handled = refl

handle-Handled_example : Handled services 100 200 before after
handle-Handled_example = handle-Handled services 100 200 before send_tx handled

-- What the send pays to the agent.
abbrev agent_utxo : Utxo
agent_utxo = record { hash = ascii "send"; index = 0; pk_script = script_of agent; value = 2000 }

-- The request as the validator gets it.
abbrev request : Transaction Bytes Tx
request = record {
  hash = [];
  input_addrs = alice ∷ [];
  inputs =
      record { hash = ascii "funding"; index = 0; pk_script = script_of alice; value = 5000 } ∷ [];
  utxos =
      agent_utxo
      ∷ record { hash = ascii "send"; index = 1; pk_script = script_of bob; value = 546 }
      ∷ [];
  outputs = pay_to agent 2000 ∷ record (pay_to bob 546) { index = 1 } ∷ [];
  msg_tx = some send_tx;
  msg_proto = some (Message.send send);
}

accepted :
    check_and_fetch state wallet 100 200 request before.store
    ≡ ok (Verdict.accept (contract_with 10 5))
unfolding check_and_fetch find_contract continue_check check_contract for_address public_address
    hash_address utxos_value value_from known_tx has_hash is_permitted run_validator judge
    validate_send in_force lookup bytes_eq
accepted = refl

check_and_fetch-Accepted_example :
    Accepted state wallet 100 200 request before.store (contract_with 10 5)
check_and_fetch-Accepted_example =
    check_and_fetch-Accepted state wallet 100 200 request before.store accepted

state-IsLawful : IsLawful state
state-IsLawful = record {
  read-write = λ c store later e id d h. elim (Bool-cases (bytes_eq id c.id)) [
    | inl same ↦ inl (ground (arith, e, h, same, lookup-insert id c.id c store))
    | inr other ↦ inr (ground (arith, e, h, other, lookup-insert id c.id c store))
  ];
}

clean : HasNoHashes state before.store
unfolding lookup
clean id c h = ground arith

reached : Reachable services before after
reached = Reachable.step 100 200 send_tx Reachable.start_here handled

replay_never_ignored_example :
    check_and_fetch state wallet 300 400 request after.store ≢ ok Verdict.ignore
replay_never_ignored_example =
    replay_never_ignored services state-IsLawful before after clean reached 300 400 request

-- A wallet with the key of the agent only, which builds a transaction where there is a message and what
-- is spent pays the outputs.
abbrev agent_wallet : Wallet Bytes Tx Bytes
agent_wallet = record {
  get = λ address. key_store_get ((agent, ascii "key") ∷ []) address;
  build_tx = λ key utxos outs change m. elim m [
    | none ↦ err Error.external
    | some reply ↦
        if ltb (utxos_value utxos) (value_of 0 outs) then err Error.external else ok reply_tx
  ];
}

abbrev agent_services : Services Bytes Tx Bytes (Dict Bytes Contract)
agent_services = record services { wallet = agent_wallet }

agent_accepted :
    check_and_fetch state agent_wallet 100 200 request before.store
    ≡ ok (Verdict.accept (contract_with 10 5))
unfolding check_and_fetch find_contract continue_check check_contract for_address public_address
    hash_address utxos_value value_from known_tx has_hash is_permitted run_validator judge
    validate_send in_force lookup bytes_eq key_store_get
agent_accepted = refl

agent_utxos : for_address request.utxos agent ≡ ok (agent_utxo ∷ [])
unfolding for_address public_address hash_address bytes_eq
agent_utxos = refl

agent_key : agent_wallet.get agent ≡ ok (ascii "key")
unfolding key_store_get lookup bytes_eq
agent_key = refl

agent_builds :
    (tx : Tx) (response : ContractResponse Bytes) (sender : Bytes)
    → request.msg_tx ≡ some tx
    → handle_send fee 100 (send_request agent_services 100 200 request (contract_with 10 5) send tx)
      ≡ ok response
    → get_elem? request.input_addrs 0 ≡ some sender
    → (reply : Tx) × (agent_wallet.build_tx
          (ascii "key")
          (agent_utxo ∷ [])
          response.outs
          (change_or response.change_address sender)
          response.message
        ≡ ok reply)
unfolding handle_send build_send_outputs lookup bytes_eq utxos_value value_from value_of
agent_builds tx response sender is_tx answered is_sender =
    subst
      (λ (r : ContractResponse Bytes).
        (reply : Tx) × (agent_wallet.build_tx (ascii "key") (agent_utxo ∷ []) r.outs
            (change_or r.change_address sender) r.message
          ≡ ok reply))
      (ok-injective answered) (reply_tx, refl)

accepted_send-CarriedOut_example :
    CarriedOut agent_services 100 200 request (contract_with 10 5) send before
accepted_send-CarriedOut_example =
    accepted_send-CarriedOut agent_services 100 200 request (contract_with 10 5) send before agent
      agent_accepted refl refl (pay_to agent 2000) agent (agent_utxo ∷ []) (ascii "key") refl refl
      agent_utxos agent_key agent_builds (λ c. (insert c.id c before.store, refl))
