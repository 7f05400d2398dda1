-- ===== src/Protocol/Forms/Laws.antt =====
-- When the assignments of a `BuildMessage` succeed, and what they build.
use smart_contract.Prelude.{
  ℕ, ◌≤◌, ◌<◌, ◌≡◌, refl, sym, ◌∙◌, Bytes, List, [], ◌∷◌, All, Bool, true, false, ◌&&◌, leb,
  if◌then◌else◌, length, ok, err, length_exceeded, arith, if-cases, ok-injective, inl, inr,
}
use smart_contract.Protocol.Codec.{pad}
use smart_contract.Protocol.Codec.Laws.{Word, length-pad}
use smart_contract.Protocol.Forms.{
  base_pad, ensure_byte, Assignment, padded, ensured, copied, build_message,
}

-- The byte of a text of at most one, zero for the empty one.
abbrev pub first_byte : Bytes → ℕ
first_byte [] = 0
first_byte (b ∷ s) = b

-- The bytes of a text are bytes.
abbrev pub IsText : Bytes → Type 0
IsText s = All (λ b. b < 256) s

pub fits-pad : (s : Bytes) (n : ℕ) → length s ≤ n → length (pad s n) ≤ n
fits-pad s n short = omega (arith, length-pad s n short)

pub first_byte-Word : (s : Bytes) → IsText s → Word 1 (first_byte s)
first_byte-Word [] h = omega arith
first_byte-Word (b ∷ s) (small, others) = omega (arith, small)

base_pad_lem :
    (s : Bytes) (l : ℕ)
    → base_pad s l ≡ (if leb (length s) l then ok (pad s l) else err length_exceeded)
unfolding base_pad pad
base_pad_lem s l = ground arith

ensure_byte_lem :
    (s : Bytes)
    → ensure_byte s ≡ (if leb (length s) 1 then ok (first_byte s) else err length_exceeded)
unfolding ensure_byte
ensure_byte_lem [] = refl
ensure_byte_lem (b ∷ []) = refl
ensure_byte_lem (b ∷ c ∷ s) = ground arith

module _ {F M : Type 0} where
  -- No text is longer than its field.
  abbrev pub short : List (Assignment F M) → F → Bool
  short [] f = true
  short (padded n get set ∷ rest) f = leb (length (get f)) n && short rest f
  short (ensured get set ∷ rest) f = leb (length (get f)) 1 && short rest f
  short (copied set ∷ rest) f = short rest f

  abbrev pub Short : List (Assignment F M) → F → Type 0
  Short [] f = Unit
  Short (padded n get set ∷ rest) f = (length (get f) ≤ n) × Short rest f
  Short (ensured get set ∷ rest) f = (length (get f) ≤ 1) × Short rest f
  Short (copied set ∷ rest) f = Short rest f

  -- The message with each text padded to its field.
  abbrev pub built : List (Assignment F M) → F → M → M
  built [] f m = m
  built (padded n get set ∷ rest) f m = built rest f (set m (pad (get f) n))
  built (ensured get set ∷ rest) f m = built rest f (set m (first_byte (get f)))
  built (copied set ∷ rest) f m = built rest f (set f m)

  pub short-Short : (steps : List (Assignment F M)) (f : F) → short steps f ≡ true → Short steps f
  short-Short [] f h = tt
  short-Short (padded n get set ∷ rest) f h = ground (arith, short-Short rest f)
  short-Short (ensured get set ∷ rest) f h = ground (arith, short-Short rest f)
  short-Short (copied set ∷ rest) f h = short-Short rest f h

  -- The assignments succeed if and only if no text is too long.
  pub build_message_lem :
      (steps : List (Assignment F M)) (f : F) (m : M)
      → build_message steps f m
        ≡ (if short steps f then ok (built steps f m) else err length_exceeded)
  unfolding build_message
  build_message_lem [] f m = refl
  build_message_lem (padded n get set ∷ rest) f m =
      ground (arith, base_pad_lem (get f) n, build_message_lem rest f (set m (pad (get f) n)))
  build_message_lem (ensured get set ∷ rest) f m =
      ground (arith, ensure_byte_lem (get f), build_message_lem rest f (set m (first_byte (get f))))
  build_message_lem (copied set ∷ rest) f m = build_message_lem rest f (set f m)

  pub build_message-eq-ok :
      (steps : List (Assignment F M)) (f : F) (start : M) {m : M}
      → build_message steps f start ≡ ok m
      → Short steps f × (built steps f start ≡ m)
  build_message-eq-ok steps f start h =
      elim (if-cases (short steps f) (ok (built steps f start)) (err length_exceeded)
        (sym (build_message_lem steps f start) ∙ h)) [
          | inl (fits, e) ↦ (short-Short steps f fits, ok-injective e)
          | inr (long, e) ↦ cc
        ]

  -- One text that is too long ends the method.
  pub build_message-long :
      (steps : List (Assignment F M)) (f : F) (start : M)
      → short steps f ≡ false
      → build_message steps f start ≡ err length_exceeded
  build_message-long steps f start h = build_message_lem steps f start ∙ rw h refl
