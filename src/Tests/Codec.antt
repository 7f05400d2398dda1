-- ===== src/Tests/Codec.antt =====
-- Messages and their bytes at concrete inputs.
use smart_contract.Prelude.{
  ◌-◌, ◌≡◌, ◌≢◌, refl, inl, ascii, length, [], ◌∷◌, ◌++◌, false, leb, ok, err, external,
  length_exceeded, arith,
}
use smart_contract.Protocol.{Send, AssetDefinition}
use smart_contract.Protocol.Codes.{Code}
use smart_contract.Protocol.Codec.{zeros, pad, big_endian, trim, written}
use smart_contract.Protocol.Codec.Interface
use smart_contract.Protocol.Codec.Send.{new_send, send_format}
use smart_contract.Protocol.Codec.AssetDefinition.{new_asset_definition}
use smart_contract.Protocol.OpReturn.{
  type_mapping, codec, format, new_message, payload_code, assign, code_text,
}
use smart_contract.Protocol.OpReturn.Codes.{Fits, Addressed}
use smart_contract.Protocol.OpReturn.RoundTrip.{new_message-message_bytes}
use smart_contract.Protocol.OpReturn.Short.{succeeded, succeeded-message_write, send_write_short}
use smart_contract.Protocol.OpReturn.Sharing.{new_message-eq-ok}
use smart_contract.Protocol.AssetTypes.ShareCommon.{
  AssetTypeShareCommon, new_share_common, share_common_format,
}
use smart_contract.Protocol.Forms.{build_message, base_pad}
use smart_contract.Protocol.Forms.Payloads.{Json}
use smart_contract.Protocol.Forms.SendForm.{SendForm, send_form, send_form_steps}
use smart_contract.Protocol.Forms.ByCode.{form}
use smart_contract.Protocol.Forms.Laws.{short}
use smart_contract.Protocol.Forms.RoundTrip.{
  op_return_push, header-new, new_message-message_bytes-build, build-short,
  new_message-send_form_steps,
}

abbrev sent : Send
sent = record new_send { asset_type = ascii "SHC"; asset_id = ascii "asset"; token_qty = 300 }

abbrev sent_later : Send
sent_later = record sent { token_qty = 7 }

-- The header, the protocol's number, the code, the version, and the three fields.
sent_bytes :
    Interface.message_bytes send_format sent
    ≡ 0x6a
      ∷ 0x32
      ∷ 0
      ∷ 0
      ∷ 0
      ∷ 0x20
      ∷ b'T'
      ∷ b'1'
      ∷ 0
      ∷ b'S'
      ∷ b'H'
      ∷ b'C'
      ∷ b'a'
      ∷ b's'
      ∷ b's'
      ∷ b'e'
      ∷ b't'
      ∷ (zeros 27 ++ 0 ∷ 0 ∷ 0 ∷ 0 ∷ 0 ∷ 0 ∷ 1 ∷ 44 ∷ [])
unfolding Interface.message_bytes send_format pad big_endian
sent_bytes = refl

sent-Fits : Fits Code.t1 sent
unfolding codec
sent-Fits = (
  refl,
  (
    omega arith,
    (omega arith, (omega arith, (omega arith, (omega arith, (omega arith, (omega arith, tt)))))),
  ),
)

sent-Addressed : Addressed Code.t1 sent
unfolding codec
sent-Addressed = (inl (_, refl, omega arith), refl)

new_message-message_bytes_example :
    (new_message type_mapping (Interface.message_bytes (format Code.t1) sent)
      ≡ (assign Code.t1 ((format Code.t1).as_read sent) type_mapping, ok Code.t1))
    × (assign Code.t1 ((format Code.t1).as_read sent) type_mapping Code.t1
        ≡ (format Code.t1).as_read sent)
new_message-message_bytes_example =
    new_message-message_bytes type_mapping Code.t1 sent sent-Fits sent-Addressed

new_message-eq-ok_example :
    (payload_code (Interface.message_bytes (format Code.t1) sent) ≡ ok (code_text Code.t1))
    × ((d : Code)
        → Code.t1 ≢ d
        → assign Code.t1 ((format Code.t1).as_read sent) type_mapping d ≡ type_mapping d)
new_message-eq-ok_example =
    new_message-eq-ok type_mapping (Interface.message_bytes (format Code.t1) sent) Code.t1
      (new_message-message_bytes type_mapping Code.t1 sent sent-Fits sent-Addressed).0

succeeded-message_write_example :
    succeeded (Interface.message_write (format Code.t1) sent (zeros 43)) ≡ leb 44 43
succeeded-message_write_example = succeeded-message_write Code.t1 sent (zeros 43)

send_write_short_example :
    (m : Send) × (Interface.message_write send_format sent (zeros 44) ≡ written 52 m)
    × (m.token_qty ≡ 300)
send_write_short_example = send_write_short sent (zeros 44) (omega arith) (omega arith)

header-new_example :
    (codec Code.t1).header (codec Code.t1).new
    ≡ op_return_push ((format Code.t1).count - length ((codec Code.t1).header (codec Code.t1).new))
header-new_example = header-new Code.t1

-- A common share, and the definition of an asset with it.
abbrev share : AssetTypeShareCommon
share = record new_share_common { ticker = ascii "TKR"; dividend_fixed = 5 }

abbrev defined : AssetDefinition
defined = record new_asset_definition {
  asset_type = ascii "SHC";
  payload = Interface.message_bytes share_common_format share;
}

-- JSON that no text is read by; a `SendForm` has no payload.
abbrev unread : Json
unread = record {
  unmarshal_coupon = λ b. err external;
  unmarshal_movie_ticket = λ b. err external;
  unmarshal_share_common = λ b. err external;
  unmarshal_ticket_admission = λ b. err external;
}

abbrev filled : SendForm
filled = record { version = 0; asset_type = ascii "SHC"; asset_id = ascii "asset"; token_qty = 300 }

abbrev built_send : Send
built_send = record sent { asset_id = pad (ascii "asset") 32 }

filled-builds : build_message send_form_steps filled new_send ≡ ok built_send
unfolding send_form_steps build_message base_pad pad
filled-builds = refl

filled-builds_form : (form unread Code.t1).build filled ≡ ok built_send
unfolding form send_form build_message base_pad pad
filled-builds_form = refl

filled-Typed : (form unread Code.t1).Typed filled
unfolding form send_form
filled-Typed = (omega arith, omega arith)

new_message-message_bytes-build_example :
    (length (Interface.message_bytes (format Code.t1) built_send) ≡ (format Code.t1).len built_send)
    × (new_message type_mapping (Interface.message_bytes (format Code.t1) built_send)
        ≡ (assign Code.t1 ((format Code.t1).as_read built_send) type_mapping, ok Code.t1))
    × (assign Code.t1 ((format Code.t1).as_read built_send) type_mapping Code.t1
        ≡ (format Code.t1).as_read built_send)
new_message-message_bytes-build_example =
    new_message-message_bytes-build unread type_mapping Code.t1 filled built_send filled-Typed
      filled-builds_form

new_message-send_form_steps_example :
    let after = assign Code.t1 (send_format.as_read built_send) type_mapping in
    (new_message type_mapping (Interface.message_bytes send_format built_send)
      ≡ (after, ok Code.t1))
    × ((after Code.t1).asset_type ≡ trim (ascii "SHC"))
    × ((after Code.t1).asset_id ≡ trim (ascii "asset"))
    × ((after Code.t1).token_qty ≡ 300)
new_message-send_form_steps_example =
    new_message-send_form_steps type_mapping filled built_send (omega arith, omega arith)
      filled-builds

too_long : short (form unread Code.t1).steps (record filled { asset_type = ascii "SHARE" }) ≡ false
unfolding form send_form send_form_steps
too_long = refl

build-short_example :
    (form unread Code.t1).build (record filled { asset_type = ascii "SHARE" }) ≡ err length_exceeded
build-short_example =
    build-short unread Code.t1 (record filled { asset_type = ascii "SHARE" }) too_long
