-- ===== src/Protocol/OpReturn/Sharing.antt =====
-- `New` and the structs of `TypeMapping`: which of them a call changes, and that its results share them.
use smart_contract.Prelude.{
  ◌≡◌, ◌≢◌, refl, sym, ap, subst, Outcome, panic, err, ◌∙◌, Bytes, ok, some, List, [], ◌∷◌,
  bytes_eq_iff, >>=-eq-ok, or_err-eq-ok, arith,
}
use smart_contract.Protocol.Codes.{Code}
use smart_contract.Protocol.Codec.{Written, written, failed}
use smart_contract.Protocol.Codec.Interface
use smart_contract.Protocol.OpReturn.{
  Body, format, code_text, code_of, payload_code, find_code, codes, Registry, assign, new_message,
  replaced, write_known, written_into, Code-discrete,
}

find_code-eq-some :
    (text : Bytes) (cs : List Code) (c : Code) → find_code text cs ≡ some c → text ≡ code_text c
unfolding find_code
find_code-eq-some text [] c h = cc
find_code-eq-some text (d ∷ cs) c h =
    ground (arith, bytes_eq_iff text (code_text d), find_code-eq-some text cs c)

replaced_other :
    {c d : Code} (test : Dec (c ≡ d)) (m : Body c) (old : Body d)
    → c ≢ d
    → replaced test m old ≡ old
replaced_other (yes same) m old differ = absurd (differ same)
replaced_other (no other) m old differ = refl

assign_other : (c d : Code) (m : Body c) (types : Registry) → c ≢ d → assign c m types d ≡ types d
unfolding assign
assign_other c d m types differ = replaced_other (Code-discrete c d) m (types d) differ

written_into-eq-ok :
    (c d : Code) (types : Registry) (w : Written (Body c)) {after : Registry}
    → written_into c types w ≡ (after, ok d)
    → (d ≡ c) × (m : Body c) × (after ≡ assign c m types)
written_into-eq-ok c d types (failed m) h = cc
written_into-eq-ok c d types (written n m) h = (cc, m, cc)

write_known-eq-ok :
    (types : Registry) (b : Bytes) (known : Outcome Code) (c : Code) {after : Registry}
    → write_known types b known ≡ (after, ok c)
    → (known ≡ ok c) × (m : Body c) × (after ≡ assign c m types)
write_known-eq-ok types b panic c h = cc
write_known-eq-ok types b (err why) c h = cc
write_known-eq-ok types b (ok d) c {after} h =
    let (e, m, stored) =
      written_into-eq-ok d c types (Interface.message_write (format d) (types d) b) h in
    subst (λ c. (◌≡◌ {A = Outcome Code} (ok d) (ok c)) × (m : Body c) × (after ≡ assign c m types))
      (sym e) (refl, m, stored)

-- A message that `New` returns has the type whose code `Code` reads in the payload, and no struct
-- of another type has changed.
pub new_message-eq-ok :
    (types : Registry) (b : Bytes) (c : Code) {after : Registry}
    → new_message types b ≡ (after, ok c)
    → (payload_code b ≡ ok (code_text c)) × ((d : Code) → c ≢ d → after d ≡ types d)
unfolding new_message code_of
new_message-eq-ok types b c {after} h =
    let (known, m, stored) = write_known-eq-ok types b _ c h in
    let (text, found, key) = >>=-eq-ok (payload_code b) _ known in
    (
      found ∙ ap ok (find_code-eq-some text codes c (or_err-eq-ok _ _ key)),
      λ d differ.
          subst (λ (r : Registry). r d ≡ types d) (sym stored) (assign_other c d m types differ),
    )

-- The structs after calls of `New` on these payloads.
unfoldable pub received : Registry → List Bytes → Registry
received types [] = types
received types (b ∷ bs) = received (new_message types b).0 bs
