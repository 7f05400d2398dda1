-- ===== src/Protocol/OpReturn.antt =====
-- `New`, `Code` and `TypeMapping` of `pkg/protocol/messages.go`: the registered messages, each
-- with its type's methods.
pub mod Codes
pub mod RoundTrip
pub mod Short
pub mod Sharing
use smart_contract.Prelude.{
  subst, ℕ, ◌≡◌, Bytes, ascii, bytes_eq, ltb, leb, ◌==◌, not, if◌then◌else◌, length, take, drop,
  Option, none, some, List, [], ◌∷◌, Outcome, panic, err, ok, no_type_mapping, not_op_return,
  external, require, or_err, index, ◌>>=◌, ◌>>◌,
}
use smart_contract.Protocol.Codes.{Code}
use smart_contract.Protocol.Requests.{
  AssetDefinition, AssetModification, ContractOffer, ContractAmendment, Order, Initiative,
  Referendum, BallotCast, Send, Exchange,
}
use smart_contract.Protocol.Responses.{
  new_asset_creation, new_contract_formation, new_freeze, new_thaw, new_confiscation,
  new_vote_message, new_rejection, new_settlement, AssetCreation, ContractFormation, Freeze, Thaw,
  Confiscation, VoteMessage, Rejection, Settlement,
}
use smart_contract.Protocol.Records.{
  Reconciliation, BallotCounted, Result, TextMessage, Establishment, Addition, Alteration, Removal,
  Swap,
}
use smart_contract.Protocol.Messages.{Message}
use smart_contract.Protocol.Codec.{Written, failed, written}
use smart_contract.Protocol.Codec.Interface
use smart_contract.Protocol.Codec.Interface.{Format, Codec}
use smart_contract.Protocol.Codec.AssetDefinition.{new_asset_definition, asset_definition_codec}
use smart_contract.Protocol.Codec.AssetCreation.{asset_creation_codec}
use smart_contract.Protocol.Codec.AssetModification.{
  new_asset_modification, asset_modification_codec,
}
use smart_contract.Protocol.Codec.ContractOffer.{new_contract_offer, contract_offer_codec}
use smart_contract.Protocol.Codec.ContractFormation.{contract_formation_codec}
use smart_contract.Protocol.Codec.ContractAmendment.{
  new_contract_amendment, contract_amendment_codec,
}
use smart_contract.Protocol.Codec.Order.{new_order, order_codec}
use smart_contract.Protocol.Codec.Freeze.{freeze_codec}
use smart_contract.Protocol.Codec.Thaw.{thaw_codec}
use smart_contract.Protocol.Codec.Confiscation.{confiscation_codec}
use smart_contract.Protocol.Codec.Reconciliation.{new_reconciliation, reconciliation_codec}
use smart_contract.Protocol.Codec.Initiative.{new_initiative, initiative_codec}
use smart_contract.Protocol.Codec.Referendum.{new_referendum, referendum_codec}
use smart_contract.Protocol.Codec.VoteMessage.{vote_message_codec}
use smart_contract.Protocol.Codec.BallotCast.{new_ballot_cast, ballot_cast_codec}
use smart_contract.Protocol.Codec.BallotCounted.{new_ballot_counted, ballot_counted_codec}
use smart_contract.Protocol.Codec.Result.{new_result, result_codec}
use smart_contract.Protocol.Codec.TextMessage.{new_text_message, text_message_codec}
use smart_contract.Protocol.Codec.Rejection.{rejection_codec}
use smart_contract.Protocol.Codec.Establishment.{new_establishment, establishment_codec}
use smart_contract.Protocol.Codec.Addition.{new_addition, addition_codec}
use smart_contract.Protocol.Codec.Alteration.{new_alteration, alteration_codec}
use smart_contract.Protocol.Codec.Removal.{new_removal, removal_codec}
use smart_contract.Protocol.Codec.Send.{new_send, send_codec}
use smart_contract.Protocol.Codec.Exchange.{new_exchange, exchange_codec}
use smart_contract.Protocol.Codec.Swap.{new_swap, swap_codec}
use smart_contract.Protocol.Codec.Settlement.{settlement_codec}

-- The texts of the constants `Code…`.
abbrev pub code_text : Code → Bytes
code_text Code.a1 = ascii "A1"
code_text Code.a2 = ascii "A2"
code_text Code.a3 = ascii "A3"
code_text Code.c1 = ascii "C1"
code_text Code.c2 = ascii "C2"
code_text Code.c3 = ascii "C3"
code_text Code.e1 = ascii "E1"
code_text Code.e2 = ascii "E2"
code_text Code.e3 = ascii "E3"
code_text Code.e4 = ascii "E4"
code_text Code.e5 = ascii "E5"
code_text Code.g1 = ascii "G1"
code_text Code.g2 = ascii "G2"
code_text Code.g3 = ascii "G3"
code_text Code.g4 = ascii "G4"
code_text Code.g5 = ascii "G5"
code_text Code.g6 = ascii "G6"
code_text Code.m1 = ascii "M1"
code_text Code.m2 = ascii "M2"
code_text Code.r1 = ascii "R1"
code_text Code.r2 = ascii "R2"
code_text Code.r3 = ascii "R3"
code_text Code.r4 = ascii "R4"
code_text Code.t1 = ascii "T1"
code_text Code.t2 = ascii "T2"
code_text Code.t3 = ascii "T3"
code_text Code.t4 = ascii "T4"

-- The struct of the messages of a code.
abbrev pub Body : Code → Type 0
Body Code.a1 = AssetDefinition
Body Code.a2 = AssetCreation
Body Code.a3 = AssetModification
Body Code.c1 = ContractOffer
Body Code.c2 = ContractFormation
Body Code.c3 = ContractAmendment
Body Code.e1 = Order
Body Code.e2 = Freeze
Body Code.e3 = Thaw
Body Code.e4 = Confiscation
Body Code.e5 = Reconciliation
Body Code.g1 = Initiative
Body Code.g2 = Referendum
Body Code.g3 = VoteMessage
Body Code.g4 = BallotCast
Body Code.g5 = BallotCounted
Body Code.g6 = Result
Body Code.m1 = TextMessage
Body Code.m2 = Rejection
Body Code.r1 = Establishment
Body Code.r2 = Addition
Body Code.r3 = Alteration
Body Code.r4 = Removal
Body Code.t1 = Send
Body Code.t2 = Exchange
Body Code.t3 = Swap
Body Code.t4 = Settlement

unfoldable pub codec : (c : Code) → Codec (Body c)
unfolding asset_definition_codec asset_creation_codec asset_modification_codec contract_offer_codec
    contract_formation_codec contract_amendment_codec order_codec freeze_codec thaw_codec
    confiscation_codec reconciliation_codec initiative_codec referendum_codec vote_message_codec
    ballot_cast_codec ballot_counted_codec result_codec text_message_codec rejection_codec
    establishment_codec addition_codec alteration_codec removal_codec send_codec exchange_codec
    swap_codec settlement_codec
codec Code.a1 = asset_definition_codec
codec Code.a2 = asset_creation_codec
codec Code.a3 = asset_modification_codec
codec Code.c1 = contract_offer_codec
codec Code.c2 = contract_formation_codec
codec Code.c3 = contract_amendment_codec
codec Code.e1 = order_codec
codec Code.e2 = freeze_codec
codec Code.e3 = thaw_codec
codec Code.e4 = confiscation_codec
codec Code.e5 = reconciliation_codec
codec Code.g1 = initiative_codec
codec Code.g2 = referendum_codec
codec Code.g3 = vote_message_codec
codec Code.g4 = ballot_cast_codec
codec Code.g5 = ballot_counted_codec
codec Code.g6 = result_codec
codec Code.m1 = text_message_codec
codec Code.m2 = rejection_codec
codec Code.r1 = establishment_codec
codec Code.r2 = addition_codec
codec Code.r3 = alteration_codec
codec Code.r4 = removal_codec
codec Code.t1 = send_codec
codec Code.t2 = exchange_codec
codec Code.t3 = swap_codec
codec Code.t4 = settlement_codec

abbrev pub format : (c : Code) → Format (Body c)
format c = (codec c).format

pub Code-discrete : Discrete Code
Code-discrete = hlevel

pub Code-set : IsSet Code
Code-set = hlevel Code-discrete

-- `TypeMapping`: the one struct that the program keeps for each code.
abbrev pub Registry : Type 0
Registry = (c : Code) → Body c

-- `TypeMapping` as the program starts with it: every struct has its zero value.
abbrev pub type_mapping : Registry
type_mapping Code.a1 = record new_asset_definition {
  header = [];
  protocol_id = 0;
  action_prefix = [];
}
type_mapping Code.a2 = record new_asset_creation {
  header = [];
  protocol_id = 0;
  action_prefix = [];
}
type_mapping Code.a3 = record new_asset_modification {
  header = [];
  protocol_id = 0;
  action_prefix = [];
}
type_mapping Code.c1 = record new_contract_offer {
  header = [];
  protocol_id = 0;
  action_prefix = [];
}
type_mapping Code.c2 = record new_contract_formation {
  header = [];
  protocol_id = 0;
  action_prefix = [];
}
type_mapping Code.c3 = record new_contract_amendment {
  header = [];
  protocol_id = 0;
  action_prefix = [];
}
type_mapping Code.e1 = record new_order { header = []; protocol_id = 0; action_prefix = [] }
type_mapping Code.e2 = record new_freeze { header = []; protocol_id = 0; action_prefix = [] }
type_mapping Code.e3 = record new_thaw { header = []; protocol_id = 0; action_prefix = [] }
type_mapping Code.e4 = record new_confiscation { header = []; protocol_id = 0; action_prefix = [] }
type_mapping Code.e5 = record new_reconciliation {
  header = [];
  protocol_id = 0;
  action_prefix = [];
}
type_mapping Code.g1 = record new_initiative { header = []; protocol_id = 0; action_prefix = [] }
type_mapping Code.g2 = record new_referendum { header = []; protocol_id = 0; action_prefix = [] }
type_mapping Code.g3 = record new_vote_message { header = []; protocol_id = 0; action_prefix = [] }
type_mapping Code.g4 = record new_ballot_cast { header = []; protocol_id = 0; action_prefix = [] }
type_mapping Code.g5 = record new_ballot_counted {
  header = [];
  protocol_id = 0;
  action_prefix = [];
}
type_mapping Code.g6 = record new_result { header = []; protocol_id = 0; action_prefix = [] }
type_mapping Code.m1 = record new_text_message { header = []; protocol_id = 0; action_prefix = [] }
type_mapping Code.m2 = record new_rejection { header = []; protocol_id = 0; action_prefix = [] }
type_mapping Code.r1 = record new_establishment { header = []; protocol_id = 0; action_prefix = [] }
type_mapping Code.r2 = record new_addition { header = []; protocol_id = 0; action_prefix = [] }
type_mapping Code.r3 = record new_alteration { header = []; protocol_id = 0; action_prefix = [] }
type_mapping Code.r4 = record new_removal { header = []; protocol_id = 0; action_prefix = [] }
type_mapping Code.t1 = record new_send { header = []; protocol_id = 0; action_prefix = [] }
type_mapping Code.t2 = record new_exchange { header = []; protocol_id = 0; action_prefix = [] }
type_mapping Code.t3 = record new_swap { header = []; protocol_id = 0; action_prefix = [] }
type_mapping Code.t4 = record new_settlement { header = []; protocol_id = 0; action_prefix = [] }

abbrev pub replaced : {c d : Code} → Dec (c ≡ d) → Body c → Body d → Body d
replaced (yes same) m old = subst Body same m
replaced (no other) m old = old

-- An assignment through the pointer that `TypeMapping` holds for c.
unfoldable pub assign : (c : Code) → Body c → Registry → Registry
assign c m types d = replaced (Code-discrete c d) m (types d)

abbrev codes : List Code
codes =
    Code.a1 ∷ Code.a2 ∷ Code.a3 ∷ Code.c1 ∷ Code.c2 ∷ Code.c3 ∷ Code.e1 ∷ Code.e2 ∷ Code.e3
    ∷ Code.e4 ∷ Code.e5 ∷ Code.g1 ∷ Code.g2 ∷ Code.g3 ∷ Code.g4 ∷ Code.g5 ∷ Code.g6 ∷ Code.m1
    ∷ Code.m2 ∷ Code.r1 ∷ Code.r2 ∷ Code.r3 ∷ Code.r4 ∷ Code.t1 ∷ Code.t2 ∷ Code.t3 ∷ Code.t4 ∷ []

find_code : Bytes → List Code → Option Code
find_code text [] = none
find_code text (c ∷ cs) = if bytes_eq text (code_text c) then some c else find_code text cs

-- The key of `TypeMapping[text]`, if there is one.
unfoldable pub code_of : Bytes → Option Code
unfolding find_code
code_of text = find_code text codes

-- `Code`
unfoldable pub payload_code : Bytes → Outcome Bytes
payload_code b =
    require (not (ltb (length b) 9)) not_op_return
    >> (index b 0 >>= λ first.
        require (first == 0x6a) not_op_return
        >> (index b 1 >>= λ second. ok (take 2 (drop (if ltb second 0x4c then 6 else 7) b))))

-- `t.Write(b)` on the struct of c, and the pointer t where it succeeds.
abbrev written_into : (c : Code) → Registry → Written (Body c) → Registry × Outcome Code
written_into c types (failed m) = (assign c m types, err external)
written_into c types (written n m) = (assign c m types, ok c)

abbrev write_known : Registry → Bytes → Outcome Code → Registry × Outcome Code
write_known types b panic = (types, panic)
write_known types b (err why) = (types, err why)
write_known types b (ok c) = written_into c types (Interface.message_write (format c) (types c) b)

-- `New`: the structs after the call, and which of them the result points to.
unfoldable pub new_message : Registry → Bytes → Registry × Outcome Code
new_message types b =
    write_known types b (payload_code b >>= λ text. or_err (code_of text) no_type_mapping)
