-- ===== src/Protocol/Forms/Payloads.antt =====
-- `pkg/protocol/asset_type_forms.go`: the payload of an asset form, as bytes.
use smart_contract.Prelude.{
  ℕ, ◌+◌, ◌≡◌, sym, ap, Bytes, ascii, bytes_eq, List, [], ◌∷◌, ◌++◌, ltb, if◌then◌else◌, length,
  length-append, Outcome, ok, err, ◌>>=◌, >>=-eq-ok, if-cases, ok-injective, inl, inr,
  field_length_exceeded, unknown_asset_type, arith,
}
use smart_contract.Protocol.Requests.{Float32}
use smart_contract.Protocol.Codec.{Chunk, text, word, pad, big_endian}
use smart_contract.Protocol.Codec.Laws.{length-pad, length-big_endian}

-- `writeBytes(buf, s, l)`
write_bytes : Bytes → ℕ → Outcome Bytes
write_bytes s l = if ltb l (length s) then err field_length_exceeded else ok (pad s l)

-- `writeBytes` of a text, `write` of a number.
abbrev write_chunk : Chunk → Outcome Bytes
write_chunk (text s l) = write_bytes s l
write_chunk (word w v) = ok (big_endian w v)

-- The bytes that these writes leave in the buffer, or the first error.
unfoldable pub form_bytes : List Chunk → Outcome Bytes
unfolding write_bytes
form_bytes [] = ok []
form_bytes (c ∷ cs) = write_chunk c >>= λ b. form_bytes cs >>= λ rest. ok (b ++ rest)

pub record AssetTypeCouponForm : Type 0 where
  pub version : ℕ
  pub trading_restriction : Bytes
  pub redeeming_entity : Bytes
  pub expiry_date : Bytes
  pub issue_date : Bytes
  pub description : Bytes

abbrev coupon_chunks : AssetTypeCouponForm → List Chunk
coupon_chunks f =
    word 1 f.version
    ∷ text f.trading_restriction 3
    ∷ text f.redeeming_entity 32
    ∷ text f.expiry_date 8
    ∷ text f.issue_date 8
    ∷ text f.description 100
    ∷ []

-- `Bytes`
unfoldable pub coupon_form_bytes : AssetTypeCouponForm → Outcome Bytes
unfolding form_bytes
coupon_form_bytes f = form_bytes (coupon_chunks f)

pub record AssetTypeMovieTicketForm : Type 0 where
  pub version : ℕ
  pub trading_restriction : Bytes
  pub age_restriction : Bytes
  pub venue : Bytes
  pub valid_from : Bytes
  pub expiration_timestamp : Bytes
  pub description : Bytes

abbrev movie_ticket_chunks : AssetTypeMovieTicketForm → List Chunk
movie_ticket_chunks f =
    word 1 f.version
    ∷ text f.trading_restriction 3
    ∷ text f.age_restriction 5
    ∷ text f.venue 32
    ∷ text f.valid_from 8
    ∷ text f.expiration_timestamp 8
    ∷ text f.description 95
    ∷ []

-- `Bytes`
unfoldable pub movie_ticket_form_bytes : AssetTypeMovieTicketForm → Outcome Bytes
unfolding form_bytes
movie_ticket_form_bytes f = form_bytes (movie_ticket_chunks f)

pub record AssetTypeShareCommonForm : Type 0 where
  pub version : ℕ
  pub trading_restriction : Bytes
  pub dividend_type : Bytes
  pub dividend_var : Float32
  pub dividend_fixed : Float32
  pub distribution_interval : Bytes
  pub guaranteed : Bytes
  pub ticker : Bytes
  pub isin : Bytes
  pub description : Bytes

abbrev share_common_chunks : AssetTypeShareCommonForm → List Chunk
share_common_chunks f =
    word 1 f.version
    ∷ text f.trading_restriction 3
    ∷ text f.dividend_type 1
    ∷ word 4 f.dividend_var
    ∷ word 4 f.dividend_fixed
    ∷ text f.distribution_interval 1
    ∷ text f.guaranteed 1
    ∷ text f.ticker 5
    ∷ text f.isin 12
    ∷ text f.description 120
    ∷ []

-- `Bytes`
unfoldable pub share_common_form_bytes : AssetTypeShareCommonForm → Outcome Bytes
unfolding form_bytes
share_common_form_bytes f = form_bytes (share_common_chunks f)

pub record AssetTypeTicketAdmissionForm : Type 0 where
  pub version : ℕ
  pub trading_restriction : Bytes
  pub age_restriction : Bytes
  pub valid_from : Bytes
  pub expiration_timestamp : Bytes
  pub description : Bytes

abbrev ticket_admission_chunks : AssetTypeTicketAdmissionForm → List Chunk
ticket_admission_chunks f =
    word 1 f.version
    ∷ text f.trading_restriction 3
    ∷ text f.age_restriction 5
    ∷ text f.valid_from 8
    ∷ text f.expiration_timestamp 8
    ∷ text f.description 127
    ∷ []

-- `Bytes`
unfoldable pub ticket_admission_form_bytes : AssetTypeTicketAdmissionForm → Outcome Bytes
unfolding form_bytes
ticket_admission_form_bytes f = form_bytes (ticket_admission_chunks f)

-- `json.Unmarshal` of a payload into each of the forms.
pub record Json : Type 0 where
  pub unmarshal_coupon : Bytes → Outcome AssetTypeCouponForm
  pub unmarshal_movie_ticket : Bytes → Outcome AssetTypeMovieTicketForm
  pub unmarshal_share_common : Bytes → Outcome AssetTypeShareCommonForm
  pub unmarshal_ticket_admission : Bytes → Outcome AssetTypeTicketAdmissionForm

-- `NewPayloadFormByCode`, then `Unmarshal` into that form, then its `Bytes`, as the methods
-- `PayloadForm` of the asset forms do.
unfoldable pub payload_form : Json → Bytes → Bytes → Outcome Bytes
unfolding bytes_eq coupon_form_bytes movie_ticket_form_bytes share_common_form_bytes
    ticket_admission_form_bytes
payload_form json code payload =
    if bytes_eq code (ascii "COU")
    then (json.unmarshal_coupon payload >>= coupon_form_bytes)
    else if bytes_eq code (ascii "MOV")
    then (json.unmarshal_movie_ticket payload >>= movie_ticket_form_bytes)
    else if bytes_eq code (ascii "SHC")
    then (json.unmarshal_share_common payload >>= share_common_form_bytes)
    else if bytes_eq code (ascii "TIC")
    then (json.unmarshal_ticket_admission payload >>= ticket_admission_form_bytes)
    else err unknown_asset_type

-- The widths of the chunks.
abbrev total_width : List Chunk → ℕ
total_width [] = 0
total_width (text s l ∷ cs) = l + total_width cs
total_width (word w v ∷ cs) = w + total_width cs

length-form_bytes : (cs : List Chunk) {b : Bytes} → form_bytes cs ≡ ok b → length b ≡ total_width cs
unfolding form_bytes
length-form_bytes [] h = ap length (sym (ok-injective h))
length-form_bytes (text s l ∷ cs) h =
    let (b, wrote, more) = >>=-eq-ok (write_bytes s l) _ h in
    let (rest, others, last) = >>=-eq-ok (form_bytes cs) _ more in
    elim (if-cases (ltb l (length s)) (err field_length_exceeded) (ok (pad s l)) wrote) [
      | inl (long, e) ↦ cc
      | inr (short, e) ↦ omega (
        arith,
        ap length (sym (ok-injective last)),
        length-append b rest,
        ap length (ok-injective e),
        length-pad s l (ground arith),
        length-form_bytes cs others,
      )
    ]
length-form_bytes (word w v ∷ cs) h =
    let (rest, others, last) = >>=-eq-ok (form_bytes cs) _ h in
    omega (
      arith,
      ap length (sym (ok-injective last)),
      length-append (big_endian w v) rest,
      length-big_endian w v,
      length-form_bytes cs others,
    )

length-unmarshalled :
    {F : Type 0} (read : Outcome F) (to_bytes : F → Outcome Bytes) {b : Bytes}
    → ((f : F) → to_bytes f ≡ ok b → length b ≡ 152)
    → (read >>= to_bytes) ≡ ok b
    → length b ≡ 152
length-unmarshalled read to_bytes sized h =
    let (f, got, wrote) = >>=-eq-ok read to_bytes h in sized f wrote

-- The payload that a form gives has the length of the field that holds it.
pub length-payload_form :
    (json : Json) (code payload : Bytes) {b : Bytes}
    → payload_form json code payload ≡ ok b
    → length b ≡ 152
unfolding payload_form
length-payload_form json code payload h = elim (if-cases (bytes_eq code (ascii "COU")) _ _ h) [
  | inl (_, e) ↦
      length-unmarshalled (json.unmarshal_coupon payload) _
        (λ f wrote. length-form_bytes (coupon_chunks f) wrote) e
  | inr (_, h) ↦ elim (if-cases (bytes_eq code (ascii "MOV")) _ _ h) [
    | inl (_, e) ↦
        length-unmarshalled (json.unmarshal_movie_ticket payload) _
          (λ f wrote. length-form_bytes (movie_ticket_chunks f) wrote) e
    | inr (_, h) ↦ elim (if-cases (bytes_eq code (ascii "SHC")) _ _ h) [
      | inl (_, e) ↦
          length-unmarshalled (json.unmarshal_share_common payload) _
            (λ f wrote. length-form_bytes (share_common_chunks f) wrote) e
      | inr (_, h) ↦ elim (if-cases (bytes_eq code (ascii "TIC")) _ _ h) [
        | inl (_, e) ↦
            length-unmarshalled (json.unmarshal_ticket_admission payload) _
              (λ f wrote. length-form_bytes (ticket_admission_chunks f) wrote) e
        | inr (_, e) ↦ cc
      ]
    ]
  ]
]
