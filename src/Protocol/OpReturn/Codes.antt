-- ===== src/Protocol/OpReturn/Codes.antt =====
-- `Code` on the bytes of a message, and the keys of `TypeMapping`.
use smart_contract.Prelude.{
  ℕ, ◌≤◌, ◌<◌, ◌≡◌, ◌⊎◌, inl, inr, refl, sym, ap, subst, ◌∙◌, Bytes, length, List, [], ◌∷◌, some,
  ok, arith, bytes_eq,
}
use smart_contract.Protocol.Codes.{Code}
use smart_contract.Protocol.Codec.{Chunk, text, word, buffer, pad, big_endian}
use smart_contract.Protocol.Codec.Interface
use smart_contract.Protocol.OpReturn.{Body, codec, format, code_text, code_of, payload_code}

-- The fields of m have the widths of its format.
abbrev pub Fits : (c : Code) → Body c → Type 0
Fits c m = Interface.Fits (format c) m

-- `OP_RETURN`, then the length of the rest in one byte, or 0x4c and that byte.
abbrev pub Headed : Bytes → Type 0
Headed h =
    ((n : ℕ) × (h ≡ 0x6a ∷ n ∷ []) × (n < 0x4c))
    ⊎ ((p n : ℕ) × (h ≡ 0x6a ∷ p ∷ n ∷ []) × (0x4c ≤ p))

-- The header is one of an OP_RETURN payload, and the action prefix that of c.
abbrev pub Addressed : (c : Code) → Body c → Type 0
Addressed c m = Headed ((codec c).header m) × ((codec c).action_prefix m ≡ code_text c)

code_text_length : (c : Code) → (x y : ℕ) × (code_text c ≡ x ∷ y ∷ [])
code_text_length Code.a1 = (_, _, refl)
code_text_length Code.a2 = (_, _, refl)
code_text_length Code.a3 = (_, _, refl)
code_text_length Code.c1 = (_, _, refl)
code_text_length Code.c2 = (_, _, refl)
code_text_length Code.c3 = (_, _, refl)
code_text_length Code.e1 = (_, _, refl)
code_text_length Code.e2 = (_, _, refl)
code_text_length Code.e3 = (_, _, refl)
code_text_length Code.e4 = (_, _, refl)
code_text_length Code.e5 = (_, _, refl)
code_text_length Code.g1 = (_, _, refl)
code_text_length Code.g2 = (_, _, refl)
code_text_length Code.g3 = (_, _, refl)
code_text_length Code.g4 = (_, _, refl)
code_text_length Code.g5 = (_, _, refl)
code_text_length Code.g6 = (_, _, refl)
code_text_length Code.m1 = (_, _, refl)
code_text_length Code.m2 = (_, _, refl)
code_text_length Code.r1 = (_, _, refl)
code_text_length Code.r2 = (_, _, refl)
code_text_length Code.r3 = (_, _, refl)
code_text_length Code.r4 = (_, _, refl)
code_text_length Code.t1 = (_, _, refl)
code_text_length Code.t2 = (_, _, refl)
code_text_length Code.t3 = (_, _, refl)
code_text_length Code.t4 = (_, _, refl)

pub code_of-code_text : (c : Code) → code_of (code_text c) ≡ some c
unfolding code_of bytes_eq
code_of-code_text Code.a1 = refl
code_of-code_text Code.a2 = refl
code_of-code_text Code.a3 = refl
code_of-code_text Code.c1 = refl
code_of-code_text Code.c2 = refl
code_of-code_text Code.c3 = refl
code_of-code_text Code.e1 = refl
code_of-code_text Code.e2 = refl
code_of-code_text Code.e3 = refl
code_of-code_text Code.e4 = refl
code_of-code_text Code.e5 = refl
code_of-code_text Code.g1 = refl
code_of-code_text Code.g2 = refl
code_of-code_text Code.g3 = refl
code_of-code_text Code.g4 = refl
code_of-code_text Code.g5 = refl
code_of-code_text Code.g6 = refl
code_of-code_text Code.m1 = refl
code_of-code_text Code.m2 = refl
code_of-code_text Code.r1 = refl
code_of-code_text Code.r2 = refl
code_of-code_text Code.r3 = refl
code_of-code_text Code.r4 = refl
code_of-code_text Code.t1 = refl
code_of-code_text Code.t2 = refl
code_of-code_text Code.t3 = refl
code_of-code_text Code.t4 = refl

payload_code-two :
    (n d0 d1 d2 d3 x y : ℕ) (rest : Bytes)
    → n < 0x4c
    → 9 ≤ length (0x6a ∷ n ∷ d0 ∷ d1 ∷ d2 ∷ d3 ∷ x ∷ y ∷ rest)
    → payload_code (0x6a ∷ n ∷ d0 ∷ d1 ∷ d2 ∷ d3 ∷ x ∷ y ∷ rest) ≡ ok (x ∷ y ∷ [])
unfolding payload_code
payload_code-two n d0 d1 d2 d3 x y rest small long = ground arith

payload_code-three :
    (p n d0 d1 d2 d3 x y : ℕ) (rest : Bytes)
    → 0x4c ≤ p
    → payload_code (0x6a ∷ p ∷ n ∷ d0 ∷ d1 ∷ d2 ∷ d3 ∷ x ∷ y ∷ rest) ≡ ok (x ∷ y ∷ [])
unfolding payload_code
payload_code-three p n d0 d1 d2 d3 x y rest big = ground arith

-- The code of a payload behind a header of two or of three bytes.
payload_code-buffer :
    (h : Bytes) (id x y : ℕ) (rest : List Chunk)
    → Headed h
    → 9 ≤ length (buffer (text h (length h) ∷ word 4 id ∷ text (x ∷ y ∷ []) 2 ∷ rest))
    → payload_code (buffer (text h (length h) ∷ word 4 id ∷ text (x ∷ y ∷ []) 2 ∷ rest))
      ≡ ok (x ∷ y ∷ [])
unfolding pad big_endian
payload_code-buffer h id x y rest (inl (n, e, small)) =
    rw e (λ long. payload_code-two n _ _ _ _ x y (buffer rest) small long)
payload_code-buffer h id x y rest (inr (p, n, e, big)) =
    rw e (λ long. payload_code-three p n _ _ _ _ x y (buffer rest) big)

-- `Code` finds the code of a message in its bytes.
pub payload_code-message_bytes :
    (c : Code) (m : Body c)
    → Fits c m
    → Addressed c m
    → payload_code (Interface.message_bytes (format c) m) ≡ ok (code_text c)
unfolding Interface.message_bytes
payload_code-message_bytes c m fits (headed, prefix) =
    let (x, y, two) = code_text_length c in
    let (id, rest, head) = (codec c).head_of m in
    let h = (codec c).header m in
    let long : 9 ≤ length (buffer ((format c).writes m)) =
      omega (arith, Interface.length-message_bytes (format c) m fits, (codec c).count_long) in
    subst (λ w. 9 ≤ length (buffer w) → payload_code (buffer w) ≡ ok (code_text c))
      (sym (head ∙ ap (λ a. text h (length h) ∷ word 4 id ∷ text a 2 ∷ rest) (prefix ∙ two)))
      (λ long. payload_code-buffer h id x y rest headed long ∙ ap ok (sym two)) long
