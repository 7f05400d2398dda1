-- ===== src/Protocol/Messages.antt =====
-- `OpReturnMessage`: a message of one of the registered types.
use smart_contract.Protocol.Codes.{Code}
use smart_contract.Protocol.Requests.{
  AssetDefinition, AssetModification, ContractOffer, ContractAmendment, Order, Send, Exchange,
  Initiative, Referendum, BallotCast,
}
use smart_contract.Protocol.Responses.{
  AssetCreation, ContractFormation, Settlement, Freeze, Thaw, Confiscation, VoteMessage, Rejection,
}
use smart_contract.Protocol.Records.{
  Reconciliation, BallotCounted, Result, TextMessage, Establishment, Addition, Alteration, Removal,
  Swap,
}

pub data Message : Type 0 where
  asset_definition : AssetDefinition → Message
  asset_creation : AssetCreation → Message
  asset_modification : AssetModification → Message
  contract_offer : ContractOffer → Message
  contract_formation : ContractFormation → Message
  contract_amendment : ContractAmendment → Message
  order : Order → Message
  freeze : Freeze → Message
  thaw : Thaw → Message
  confiscation : Confiscation → Message
  initiative : Initiative → Message
  referendum : Referendum → Message
  vote : VoteMessage → Message
  ballot_cast : BallotCast → Message
  rejection : Rejection → Message
  send : Send → Message
  exchange : Exchange → Message
  settlement : Settlement → Message
  reconciliation : Reconciliation → Message
  ballot_counted : BallotCounted → Message
  result : Result → Message
  message : TextMessage → Message
  establishment : Establishment → Message
  addition : Addition → Message
  alteration : Alteration → Message
  removal : Removal → Message
  swap : Swap → Message

-- `msg.Type()`
abbrev pub type_of : Message → Code
type_of (Message.asset_definition m) = Code.a1
type_of (Message.asset_creation m) = Code.a2
type_of (Message.asset_modification m) = Code.a3
type_of (Message.contract_offer m) = Code.c1
type_of (Message.contract_formation m) = Code.c2
type_of (Message.contract_amendment m) = Code.c3
type_of (Message.order m) = Code.e1
type_of (Message.freeze m) = Code.e2
type_of (Message.thaw m) = Code.e3
type_of (Message.confiscation m) = Code.e4
type_of (Message.reconciliation m) = Code.e5
type_of (Message.initiative m) = Code.g1
type_of (Message.referendum m) = Code.g2
type_of (Message.vote m) = Code.g3
type_of (Message.ballot_cast m) = Code.g4
type_of (Message.ballot_counted m) = Code.g5
type_of (Message.result m) = Code.g6
type_of (Message.message m) = Code.m1
type_of (Message.rejection m) = Code.m2
type_of (Message.establishment m) = Code.r1
type_of (Message.addition m) = Code.r2
type_of (Message.alteration m) = Code.r3
type_of (Message.removal m) = Code.r4
type_of (Message.send m) = Code.t1
type_of (Message.exchange m) = Code.t2
type_of (Message.swap m) = Code.t3
type_of (Message.settlement m) = Code.t4
