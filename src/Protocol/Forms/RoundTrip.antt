-- ===== src/Protocol/Forms/RoundTrip.antt =====
-- A message that a form builds can be written, and is read back by `New`.
use smart_contract.Prelude.{
  ℕ, ◌-◌, ◌≡◌, inl, inr, refl, sym, subst, ap, ◌∙◌, Bytes, [], ◌∷◌, length, ltb, if◌then◌else◌,
  false, ok, err, length_exceeded, arith,
}
use smart_contract.Protocol.Codes.{Code}
use smart_contract.Protocol.Requests.{Send}
use smart_contract.Protocol.Codec.{trim}
use smart_contract.Protocol.Codec.Laws.{trim-pad}
use smart_contract.Protocol.Codec.Interface
use smart_contract.Protocol.Codec.Send.{send_format, new_send}
use smart_contract.Protocol.OpReturn.{Body, Registry, codec, format, assign, new_message}
use smart_contract.Protocol.OpReturn.Codes.{Headed, Addressed}
use smart_contract.Protocol.OpReturn.RoundTrip.{new_message-message_bytes}
use smart_contract.Protocol.Forms.{build_message}
use smart_contract.Protocol.Forms.Laws.{short, build_message-eq-ok}
use smart_contract.Protocol.Forms.SendForm.{SendForm, SendFormTyped, send_form, send_form_steps}
use smart_contract.Protocol.Forms.Payloads.{Json}
use smart_contract.Protocol.Forms.ByCode.{FormType, form}

-- The opcodes that push n bytes after `OP_RETURN`.
abbrev pub op_return_push : ℕ → Bytes
op_return_push n = if ltb n 0x4c then 0x6a ∷ n ∷ [] else 0x6a ∷ 0x4c ∷ n ∷ []

-- The header that the `New` function of each type sets is the push of exactly the bytes that
-- follow it in a message of the type.
pub header-new :
    (c : Code)
    → (codec c).header (codec c).new
      ≡ op_return_push ((format c).count - length ((codec c).header (codec c).new))
unfolding codec
header-new Code.a1 = refl
header-new Code.a2 = refl
header-new Code.a3 = refl
header-new Code.c1 = refl
header-new Code.c2 = refl
header-new Code.c3 = refl
header-new Code.e1 = refl
header-new Code.e2 = refl
header-new Code.e3 = refl
header-new Code.e4 = refl
header-new Code.e5 = refl
header-new Code.g1 = refl
header-new Code.g2 = refl
header-new Code.g3 = refl
header-new Code.g4 = refl
header-new Code.g5 = refl
header-new Code.g6 = refl
header-new Code.m1 = refl
header-new Code.m2 = refl
header-new Code.r1 = refl
header-new Code.r2 = refl
header-new Code.r3 = refl
header-new Code.r4 = refl
header-new Code.t1 = refl
header-new Code.t2 = refl
header-new Code.t3 = refl
header-new Code.t4 = refl

Addressed-new : (c : Code) → Addressed c (codec c).new
unfolding codec
Addressed-new Code.a1 = (inr (_, _, refl, omega arith), refl)
Addressed-new Code.a2 = (inr (_, _, refl, omega arith), refl)
Addressed-new Code.a3 = (inr (_, _, refl, omega arith), refl)
Addressed-new Code.c1 = (inr (_, _, refl, omega arith), refl)
Addressed-new Code.c2 = (inr (_, _, refl, omega arith), refl)
Addressed-new Code.c3 = (inr (_, _, refl, omega arith), refl)
Addressed-new Code.e1 = (inr (_, _, refl, omega arith), refl)
Addressed-new Code.e2 = (inr (_, _, refl, omega arith), refl)
Addressed-new Code.e3 = (inr (_, _, refl, omega arith), refl)
Addressed-new Code.e4 = (inr (_, _, refl, omega arith), refl)
Addressed-new Code.e5 = (inr (_, _, refl, omega arith), refl)
Addressed-new Code.g1 = (inr (_, _, refl, omega arith), refl)
Addressed-new Code.g2 = (inr (_, _, refl, omega arith), refl)
Addressed-new Code.g3 = (inr (_, _, refl, omega arith), refl)
Addressed-new Code.g4 = (inr (_, _, refl, omega arith), refl)
Addressed-new Code.g5 = (inr (_, _, refl, omega arith), refl)
Addressed-new Code.g6 = (inr (_, _, refl, omega arith), refl)
Addressed-new Code.m1 = (inr (_, _, refl, omega arith), refl)
Addressed-new Code.m2 = (inr (_, _, refl, omega arith), refl)
Addressed-new Code.r1 = (inr (_, _, refl, omega arith), refl)
Addressed-new Code.r2 = (inr (_, _, refl, omega arith), refl)
Addressed-new Code.r3 = (inr (_, _, refl, omega arith), refl)
Addressed-new Code.r4 = (inr (_, _, refl, omega arith), refl)
Addressed-new Code.t1 = (inl (_, refl, omega arith), refl)
Addressed-new Code.t2 = (inr (_, _, refl, omega arith), refl)
Addressed-new Code.t3 = (inr (_, _, refl, omega arith), refl)
Addressed-new Code.t4 = (inl (_, refl, omega arith), refl)

-- A form of any code whose numbers and bytes are in the range of their types: what it builds has
-- as many bytes as its `Len`, and `New` reads it back from them, every field from its own place, its
-- texts trimmed and the payload of an asset message padded, whatever the structs of `TypeMapping` held.
pub new_message-message_bytes-build :
    (json : Json) (types : Registry) (c : Code) (f : FormType c) (m : Body c)
    → (form json c).Typed f
    → (form json c).build f ≡ ok m
    → (length (Interface.message_bytes (format c) m) ≡ (format c).len m)
      × (new_message types (Interface.message_bytes (format c) m)
          ≡ (assign c ((format c).as_read m) types, ok c))
      × (assign c ((format c).as_read m) types c ≡ (format c).as_read m)
new_message-message_bytes-build json types c f m typed h =
    let fits = (form json c).built_Fits f m typed h in
    let (header, prefix) = (form json c).built_address f m h in
    let (headed, text) = Addressed-new c in
    let (call, stored) =
      new_message-message_bytes types c m fits (subst Headed (sym header) headed, prefix ∙ text) in
    (Interface.length-message_bytes-len (format c) m fits, call, stored)

-- A form of any code with a text that is longer than its field builds no message.
pub build-short :
    (json : Json) (c : Code) (f : FormType c)
    → short (form json c).steps f ≡ false
    → (form json c).build f ≡ err length_exceeded
build-short json c f long = (form json c).build_long f long

-- From a `SendForm` to what the contract reads: its texts without the zero bytes at their ends,
-- and its quantity.
pub new_message-send_form_steps :
    (types : Registry) (f : SendForm) (m : Send)
    → SendFormTyped f
    → build_message send_form_steps f new_send ≡ ok m
    → let after = assign Code.t1 (send_format.as_read m) types in
      (new_message types (Interface.message_bytes send_format m) ≡ (after, ok Code.t1))
      × ((after Code.t1).asset_type ≡ trim f.asset_type)
      × ((after Code.t1).asset_id ≡ trim f.asset_id)
      × ((after Code.t1).token_qty ≡ f.token_qty)
unfolding send_form send_form_steps send_format codec
new_message-send_form_steps types f m typed h =
    let fits = send_form.built_Fits f m typed h in
    let (short, whole) = build_message-eq-ok send_form_steps f new_send h in
    let (call, stored) =
      new_message-message_bytes types Code.t1 m fits
        (subst (Addressed Code.t1) whole (inl (_, refl, omega arith), refl)) in
    (
      call,
      ap (λ m. m.asset_type) stored
          ∙ ap (λ (m : Send). trim m.asset_type) (sym whole)
          ∙ trim-pad f.asset_type 3,
      ap (λ m. m.asset_id) stored
          ∙ ap (λ (m : Send). trim m.asset_id) (sym whole)
          ∙ trim-pad f.asset_id 32,
      ap (λ m. m.token_qty) stored ∙ ap (λ (m : Send). m.token_qty) (sym whole),
    )
