-- ===== src/Protocol/Forms/ByCode.antt =====
-- `NewFormByCode`, and the forms of all the codes.
use smart_contract.Prelude.{Bytes, Outcome, or_err, unknown_message}
use smart_contract.Protocol.Codes.{Code}
use smart_contract.Protocol.OpReturn.{code_of}
use smart_contract.Protocol.Forms.Interface.{FormOf}
use smart_contract.Protocol.Forms.Payloads.{Json}
use smart_contract.Protocol.Forms.AssetDefinitionForm.{AssetDefinitionForm, asset_definition_form}
use smart_contract.Protocol.Forms.AssetCreationForm.{AssetCreationForm, asset_creation_form}
use smart_contract.Protocol.Forms.AssetModificationForm.{
  AssetModificationForm, asset_modification_form,
}
use smart_contract.Protocol.Forms.ContractOfferForm.{ContractOfferForm, contract_offer_form}
use smart_contract.Protocol.Forms.ContractFormationForm.{
  ContractFormationForm, contract_formation_form,
}
use smart_contract.Protocol.Forms.ContractAmendmentForm.{
  ContractAmendmentForm, contract_amendment_form,
}
use smart_contract.Protocol.Forms.OrderForm.{OrderForm, order_form}
use smart_contract.Protocol.Forms.FreezeForm.{FreezeForm, freeze_form}
use smart_contract.Protocol.Forms.ThawForm.{ThawForm, thaw_form}
use smart_contract.Protocol.Forms.ConfiscationForm.{ConfiscationForm, confiscation_form}
use smart_contract.Protocol.Forms.ReconciliationForm.{ReconciliationForm, reconciliation_form}
use smart_contract.Protocol.Forms.InitiativeForm.{InitiativeForm, initiative_form}
use smart_contract.Protocol.Forms.ReferendumForm.{ReferendumForm, referendum_form}
use smart_contract.Protocol.Forms.VoteForm.{VoteForm, vote_form}
use smart_contract.Protocol.Forms.BallotCastForm.{BallotCastForm, ballot_cast_form}
use smart_contract.Protocol.Forms.BallotCountedForm.{BallotCountedForm, ballot_counted_form}
use smart_contract.Protocol.Forms.ResultForm.{ResultForm, result_form}
use smart_contract.Protocol.Forms.MessageForm.{MessageForm, message_form}
use smart_contract.Protocol.Forms.RejectionForm.{RejectionForm, rejection_form}
use smart_contract.Protocol.Forms.EstablishmentForm.{EstablishmentForm, establishment_form}
use smart_contract.Protocol.Forms.AdditionForm.{AdditionForm, addition_form}
use smart_contract.Protocol.Forms.AlterationForm.{AlterationForm, alteration_form}
use smart_contract.Protocol.Forms.RemovalForm.{RemovalForm, removal_form}
use smart_contract.Protocol.Forms.SendForm.{SendForm, send_form}
use smart_contract.Protocol.Forms.ExchangeForm.{ExchangeForm, exchange_form}
use smart_contract.Protocol.Forms.SwapForm.{SwapForm, swap_form}
use smart_contract.Protocol.Forms.SettlementForm.{SettlementForm, settlement_form}

-- The struct of the form of a code.
abbrev pub FormType : Code → Type 0
FormType Code.a1 = AssetDefinitionForm
FormType Code.a2 = AssetCreationForm
FormType Code.a3 = AssetModificationForm
FormType Code.c1 = ContractOfferForm
FormType Code.c2 = ContractFormationForm
FormType Code.c3 = ContractAmendmentForm
FormType Code.e1 = OrderForm
FormType Code.e2 = FreezeForm
FormType Code.e3 = ThawForm
FormType Code.e4 = ConfiscationForm
FormType Code.e5 = ReconciliationForm
FormType Code.g1 = InitiativeForm
FormType Code.g2 = ReferendumForm
FormType Code.g3 = VoteForm
FormType Code.g4 = BallotCastForm
FormType Code.g5 = BallotCountedForm
FormType Code.g6 = ResultForm
FormType Code.m1 = MessageForm
FormType Code.m2 = RejectionForm
FormType Code.r1 = EstablishmentForm
FormType Code.r2 = AdditionForm
FormType Code.r3 = AlterationForm
FormType Code.r4 = RemovalForm
FormType Code.t1 = SendForm
FormType Code.t2 = ExchangeForm
FormType Code.t3 = SwapForm
FormType Code.t4 = SettlementForm

unfoldable pub form : Json → (c : Code) → FormOf c (FormType c)
unfolding asset_definition_form asset_creation_form asset_modification_form contract_offer_form
    contract_formation_form contract_amendment_form order_form freeze_form thaw_form
    confiscation_form reconciliation_form initiative_form referendum_form vote_form ballot_cast_form
    ballot_counted_form result_form message_form rejection_form establishment_form addition_form
    alteration_form removal_form send_form exchange_form swap_form settlement_form
form json Code.a1 = asset_definition_form json
form json Code.a2 = asset_creation_form json
form json Code.a3 = asset_modification_form json
form json Code.c1 = contract_offer_form
form json Code.c2 = contract_formation_form
form json Code.c3 = contract_amendment_form
form json Code.e1 = order_form
form json Code.e2 = freeze_form
form json Code.e3 = thaw_form
form json Code.e4 = confiscation_form
form json Code.e5 = reconciliation_form
form json Code.g1 = initiative_form
form json Code.g2 = referendum_form
form json Code.g3 = vote_form
form json Code.g4 = ballot_cast_form
form json Code.g5 = ballot_counted_form
form json Code.g6 = result_form
form json Code.m1 = message_form
form json Code.m2 = rejection_form
form json Code.r1 = establishment_form
form json Code.r2 = addition_form
form json Code.r3 = alteration_form
form json Code.r4 = removal_form
form json Code.t1 = send_form
form json Code.t2 = exchange_form
form json Code.t3 = swap_form
form json Code.t4 = settlement_form

-- `NewFormByCode`: the code whose form it makes.
unfoldable pub new_form_by_code : Bytes → Outcome Code
unfolding code_of
new_form_by_code text = or_err (code_of text) unknown_message
