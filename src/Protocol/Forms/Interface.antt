-- ===== src/Protocol/Forms/Interface.antt =====
-- What a form type gives for the interface `Form`, with the laws that its implementation proves.
use smart_contract.Prelude.{
  ◌≤◌, ◌≡◌, subst, ap, ◌∙◌, Bytes, List, length, false, Outcome, ok, err, length_exceeded, ◌>>=◌,
  >>=-eq-ok, ok-injective, arith,
}
use smart_contract.Protocol.Codes.{Code}
use smart_contract.Protocol.Codec.Interface
use smart_contract.Protocol.OpReturn.{Body, codec, format}
use smart_contract.Protocol.Forms.{Assignment, build_message}
use smart_contract.Protocol.Forms.Laws.{
  short, Short, built, build_message-eq-ok, build_message-long,
}
use smart_contract.Protocol.Forms.Payloads.{Json, payload_form, length-payload_form}

pub record FormOf (c : Code) (F : Type 0) : Type 1 where
  pub steps : List (Assignment F (Body c))
  -- `BuildMessage`
  pub build : F → Outcome (Body c)
  -- The numbers and bytes of a form are in the range of their types.
  pub Typed : F → Type 0
  pub built_Fits : (f : F) (m : Body c) → Typed f → build f ≡ ok m → Interface.Fits (format c) m
  -- The header and the action prefix are those of the `New` function.
  pub built_address :
      (f : F) (m : Body c)
      → build f ≡ ok m
      → ((codec c).header m ≡ (codec c).header (codec c).new)
        × ((codec c).action_prefix m ≡ (codec c).action_prefix (codec c).new)
  pub build_long : (f : F) → short steps f ≡ false → build f ≡ err length_exceeded

module _ (c : Code) {F : Type 0} (steps : List (Assignment F (Body c))) (Typed : F → Type 0) where
  abbrev pub start : F → Body c
  start f = built steps f (codec c).new

  abbrev pub HasAddress : Body c → Type 0
  HasAddress m =
      ((codec c).header m ≡ (codec c).header (codec c).new)
      × ((codec c).action_prefix m ≡ (codec c).action_prefix (codec c).new)

  -- A form whose `BuildMessage` is its assignments.
  unfoldable pub plain_form :
      ((f : F) → Typed f → Short steps f → Interface.Fits (format c) (start f))
      → ((f : F) → HasAddress (start f))
      → FormOf c F
  plain_form fits address = record {
    steps = steps;
    build = λ f. build_message steps f (codec c).new;
    Typed = Typed;
    built_Fits = λ f m typed h.
        let (short, whole) = build_message-eq-ok steps f (codec c).new h in
        subst (Interface.Fits (format c)) whole (fits f typed short);
    built_address = λ f m h.
        let (short, whole) = build_message-eq-ok steps f (codec c).new h in
        subst HasAddress whole (address f);
    build_long = λ f long. build_message-long steps f (codec c).new long;
  }

  module _ (json : Json) (asset_type payload : F → Bytes) (set : Body c → Bytes → Body c) where
    -- The assignments, then the payload replaced by the bytes of the form that it holds.
    unfoldable pub build_with_payload : F → Outcome (Body c)
    build_with_payload f = build_message steps f (codec c).new >>= λ m.
        payload_form json (asset_type f) (payload f) >>= λ b. ok (set m b)

    pub build_with_payload-eq-ok :
        (f : F) {m : Body c}
        → build_with_payload f ≡ ok m
        → Short steps f × (b : Bytes) × (length b ≡ 152) × (set (start f) b ≡ m)
    unfolding build_with_payload
    build_with_payload-eq-ok f h =
        let (first, done, rest) = >>=-eq-ok (build_message steps f (codec c).new) _ h in
        let (b, read, last) = >>=-eq-ok (payload_form json (asset_type f) (payload f)) _ rest in
        let (short, whole) = build_message-eq-ok steps f (codec c).new done in
        (
          short,
          b,
          length-payload_form json (asset_type f) (payload f) read,
          ap (λ m. set m b) whole ∙ ok-injective last,
        )

    -- A form whose `BuildMessage` does that.
    unfoldable pub asset_form :
        ((f : F) (b : Bytes)
          → Typed f
          → Short steps f
          → length b ≤ 152
          → Interface.Fits (format c) (set (start f) b))
        → ((f : F) (b : Bytes) → HasAddress (set (start f) b))
        → FormOf c F
    unfolding build_with_payload
    asset_form fits address = record {
      steps = steps;
      build = build_with_payload;
      Typed = Typed;
      built_Fits = λ f m typed h.
          let (short, b, sized, whole) = build_with_payload-eq-ok f h in
          subst (Interface.Fits (format c)) whole (fits f b typed short (omega (arith, sized)));
      built_address = λ f m h.
          let (short, b, sized, whole) = build_with_payload-eq-ok f h in
          subst HasAddress whole (address f b);
      build_long = λ f long. cc (build_message-long steps f (codec c).new long);
    }
