-- ===== src/Protocol/Forms.antt =====
-- `BaseForm` in `pkg/protocol/form.go`, and the statements that the methods `BuildMessage` of
-- `protocol_forms.go` are made of.
pub mod Laws
pub mod Interface
pub mod Payloads
pub mod ByCode
pub mod RoundTrip
pub mod AssetDefinitionForm
pub mod AssetCreationForm
pub mod AssetModificationForm
pub mod ContractOfferForm
pub mod ContractFormationForm
pub mod ContractAmendmentForm
pub mod OrderForm
pub mod FreezeForm
pub mod ThawForm
pub mod ConfiscationForm
pub mod ReconciliationForm
pub mod InitiativeForm
pub mod ReferendumForm
pub mod VoteForm
pub mod BallotCastForm
pub mod BallotCountedForm
pub mod ResultForm
pub mod MessageForm
pub mod RejectionForm
pub mod EstablishmentForm
pub mod AdditionForm
pub mod AlterationForm
pub mod RemovalForm
pub mod SendForm
pub mod ExchangeForm
pub mod SwapForm
pub mod SettlementForm
use smart_contract.Prelude.{
  ℕ, ◌-◌, ◌≤◌, ◌<◌, ◌≡◌, Bytes, List, [], ◌∷◌, ◌++◌, All, Bool, true, false, ◌&&◌, ltb, leb, ◌==◌,
  if◌then◌else◌, length, Outcome, ok, err, length_exceeded, index, ◌>>=◌,
}
use smart_contract.Protocol.Codec.{zeros, pad}

-- `BaseForm.pad`
unfoldable pub base_pad : Bytes → ℕ → Outcome Bytes
base_pad s l =
    if ltb l (length s)
    then err length_exceeded
    else if length s == l
    then ok s
    else ok (s ++ zeros (l - length s))

-- `BaseForm.ensureByte`
unfoldable pub ensure_byte : Bytes → Outcome ℕ
unfolding base_pad
ensure_byte s = base_pad s 1 >>= λ b. index b 0

-- One assignment to a field of the message: `padded n` is `m.F, err = f.pad(f.F, n)` and
-- `ensured` is `m.F, err = f.ensureByte(f.F)`, each with the return on an error; `copied` is
-- `m.F = f.F`.
pub data Assignment (F M : Type 0) : Type 0 where
  padded : ℕ → (F → Bytes) → (M → Bytes → M) → Assignment F M
  ensured : (F → Bytes) → (M → ℕ → M) → Assignment F M
  copied : (F → M → M) → Assignment F M

module _ {F M : Type 0} where
  -- The body of a `BuildMessage` from the message that its `New` function gave.
  unfoldable pub build_message : List (Assignment F M) → F → M → Outcome M
  build_message [] f m = ok m
  build_message (padded n get set ∷ rest) f m =
      base_pad (get f) n >>= λ b. build_message rest f (set m b)
  build_message (ensured get set ∷ rest) f m =
      ensure_byte (get f) >>= λ b. build_message rest f (set m b)
  build_message (copied set ∷ rest) f m = build_message rest f (set f m)
