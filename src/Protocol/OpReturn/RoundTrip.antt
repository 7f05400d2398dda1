-- ===== src/Protocol/OpReturn/RoundTrip.antt =====
-- What was written as a message is read back as it: `Bytes`, `Write`, `Read`, `Len`, and `New`.
use mathlib.Core.Path.{subst_refl}
use smart_contract.Prelude.{
  ◌≡◌, refl, sym, ap, subst, ◌∙◌, Bytes, length, [], ◌∷◌, ok, arith, ◌>>=◌, or_err, no_type_mapping,
}
use smart_contract.Protocol.Codes.{Code}
use smart_contract.Protocol.Codec.{copy}
use smart_contract.Protocol.Codec.Interface
use smart_contract.Protocol.OpReturn.{
  Body, format, code_of, payload_code, Registry, assign, new_message, Code-discrete, Code-set,
  replaced, write_known, written_into,
}
use smart_contract.Protocol.OpReturn.Codes.{
  Fits, Addressed, payload_code-message_bytes, code_of-code_text,
}

length-copy : (b from : Bytes) → length b ≡ length from → copy b from ≡ from
unfolding copy
length-copy [] [] h = refl
length-copy [] (y ∷ from) h = absurd (omega arith)
length-copy (x ∷ b) [] h = absurd (omega arith)
length-copy (x ∷ b) (y ∷ from) h = ap (λ r. y ∷ r) (length-copy b from (omega (arith, h)))

-- `Read` into a slice of `Len` bytes fills it with the bytes of the message, and returns `Len`.
message_read-message_bytes :
    (c : Code) (m : Body c) (b : Bytes)
    → Fits c m
    → length b ≡ (format c).len m
    → Interface.message_read (format c) m b
      ≡ ((format c).len m, Interface.message_bytes (format c) m)
unfolding Interface.message_read
message_read-message_bytes c m b fits room = cc (
  room,
  length-copy b (Interface.message_bytes (format c) m)
      (room ∙ sym (Interface.length-message_bytes-len (format c) m fits)),
)

replaced_self : (c : Code) (test : Dec (c ≡ c)) (m old : Body c) → replaced test m old ≡ m
replaced_self c (yes same) m old =
    ap (λ p. subst Body p m) (Code-set c c same refl) ∙ subst_refl Body m
replaced_self c (no other) m old = absurd (other refl)

-- The struct of c after an assignment to it.
pub assign_self : (c : Code) (m : Body c) (types : Registry) → assign c m types c ≡ m
unfolding assign
assign_self c m types = replaced_self c (Code-discrete c c) m (types c)

-- `New` on the bytes of a message whose fields fit, whatever the structs of `TypeMapping` held: it
-- succeeds, its result points to the struct of the message's type, and that struct holds every field
-- of the message, its texts trimmed and the payload of an asset message padded.
pub new_message-message_bytes :
    (types : Registry) (c : Code) (m : Body c)
    → Fits c m
    → Addressed c m
    → (new_message types (Interface.message_bytes (format c) m)
        ≡ (assign c ((format c).as_read m) types, ok c))
      × (assign c ((format c).as_read m) types c ≡ (format c).as_read m)
unfolding new_message
new_message-message_bytes types c m fits addressed =
    let known : (payload_code (Interface.message_bytes (format c) m) >>= λ text.
    or_err (code_of text) no_type_mapping)
        ≡ ok c =
      rw (payload_code-message_bytes c m fits addressed, code_of-code_text c) refl in
    (
      ap (write_known types (Interface.message_bytes (format c) m)) known
          ∙ ap (written_into c types)
              (Interface.message_write-message_bytes (format c) (types c) m fits),
      assign_self c ((format c).as_read m) types,
    )
