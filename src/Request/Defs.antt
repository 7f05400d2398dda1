-- ===== src/Request/Defs.antt =====
-- `request_contract_request.go`, `request_contract_response.go`, `config.Fee`, and the type
-- assertions `r.m.(*protocol.T)` of the handlers.
use smart_contract.Prelude.{ℕ, Bytes, ltb, if◌then◌else◌, Option, none, some, List, [], ◌∷◌, ◌++◌}
use smart_contract.Protocol.{
  Message, Send, Exchange, Order, ContractOffer, ContractAmendment, AssetDefinition,
  AssetModification, Initiative, Referendum, BallotCast,
}
use smart_contract.TxBuilder.{TxOutput, pay_to}
use smart_contract.State.{Contract}

pub record Fee (Addr : Type 0) : Type 0 where
  pub address : Addr
  pub value : ℕ

pub record ContractRequest (Addr MsgTx : Type 0) : Type 0 where
  pub tx : MsgTx
  pub hash : Bytes
  pub senders : List Addr
  pub receivers : List (TxOutput Addr)
  pub contract : Contract
  pub m : Message

-- The field `Responses` is left out: no code of the repository reads or writes it.
pub record ContractResponse (Addr : Type 0) : Type 0 where
  pub contract : Contract
  pub message : Option Message
  pub outs : List (TxOutput Addr)
  pub change_address : Option Addr

-- The optional contract fee at the end of each `buildOutputs`.
abbrev pub with_fee : {Addr : Type 0} → Fee Addr → List (TxOutput Addr) → List (TxOutput Addr)
with_fee fee outs = if ltb 0 fee.value then outs ++ pay_to fee.address fee.value ∷ [] else outs

abbrev pub as_send : Message → Option Send
as_send (Message.send m) = some m
as_send _ = none

abbrev pub as_exchange : Message → Option Exchange
as_exchange (Message.exchange m) = some m
as_exchange _ = none

abbrev pub as_order : Message → Option Order
as_order (Message.order m) = some m
as_order _ = none

abbrev pub as_contract_offer : Message → Option ContractOffer
as_contract_offer (Message.contract_offer m) = some m
as_contract_offer _ = none

abbrev pub as_contract_amendment : Message → Option ContractAmendment
as_contract_amendment (Message.contract_amendment m) = some m
as_contract_amendment _ = none

abbrev pub as_asset_definition : Message → Option AssetDefinition
as_asset_definition (Message.asset_definition m) = some m
as_asset_definition _ = none

abbrev pub as_asset_modification : Message → Option AssetModification
as_asset_modification (Message.asset_modification m) = some m
as_asset_modification _ = none

abbrev pub as_initiative : Message → Option Initiative
as_initiative (Message.initiative m) = some m
as_initiative _ = none

abbrev pub as_referendum : Message → Option Referendum
as_referendum (Message.referendum m) = some m
as_referendum _ = none

abbrev pub as_ballot_cast : Message → Option BallotCast
as_ballot_cast (Message.ballot_cast m) = some m
as_ballot_cast _ = none
