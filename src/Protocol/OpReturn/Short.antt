-- ===== src/Protocol/OpReturn/Short.antt =====
-- Payloads of any length: when `Write` succeeds, and what it leaves where the payload is short.
use smart_contract.Prelude.{
  ℕ, zero, suc, ◌+◌, ◌-◌, ◌≤◌, ◌<◌, ◌≡◌, refl, ap, ◌∙◌, Bytes, length, take, drop, List, [], ◌∷◌,
  Bool, true, false, arith, ltb, leb, ◌==◌, if◌then◌else◌,
}
use smart_contract.Protocol.Codes.{Code}
use smart_contract.Protocol.Requests.{Send}
use smart_contract.Protocol.Codec.{
  from_big_endian, Statement, trimmed, untrimmed, number, checked, Written, written, failed, run,
  trim,
}
use smart_contract.Protocol.Codec.Interface
use smart_contract.Protocol.Codec.Send.{send_format}
use smart_contract.Protocol.OpReturn.{Body, format, codec}

abbrev pub succeeded {ℓ} : {M : Type ℓ} → Written M → Bool
succeeded (failed m) = false
succeeded (written n m) = true

abbrev ahead : ℕ → ℕ → ℕ
ahead w rest = if rest == 0 then 0 else w + rest

-- The bytes that the statements of a `Write` need: numbers whose error is not looked at are not needed
-- behind the last text.
abbrev needed {ℓ} : {M : Type ℓ} → List (Statement M) → ℕ
needed [] = 0
needed (trimmed n set ∷ ss) = n + needed ss
needed (untrimmed n set ∷ ss) = n + needed ss
needed (checked w set ∷ ss) = w + needed ss
needed (number w set ∷ ss) = ahead w (needed ss)

length-drop : (n : ℕ) (b : Bytes) → length (drop n b) ≡ length b - n
length-drop zero b = omega arith
length-drop (suc n) [] = omega arith
length-drop (suc n) (x ∷ b) = omega (arith, length-drop n b)

succeeded-run {ℓ} :
    {M : Type ℓ} (ss : List (Statement M)) (count : ℕ) (b : Bytes) (m : M)
    → succeeded (run ss count b m) ≡ leb (needed ss) (length b)
unfolding run
succeeded-run [] count b m = ground arith
succeeded-run (trimmed n set ∷ ss) count b m =
    ground (arith, length-drop n b, succeeded-run ss count (drop n b) (set m (trim (take n b))))
succeeded-run (untrimmed n set ∷ ss) count b m =
    ground (arith, length-drop n b, succeeded-run ss count (drop n b) (set m (take n b)))
succeeded-run (checked w set ∷ ss) count b m = ground (
  arith,
  length-drop w b,
  succeeded-run ss count (drop w b) (set m (from_big_endian 0 (take w b))),
)
succeeded-run (number w set ∷ ss) count b m = ground (
  arith,
  length-drop w b,
  succeeded-run ss count (drop w b)
      (if ltb (length b) w then m else set m (from_big_endian 0 (take w b))),
)

-- Where the last text field of each message ends, in bytes from its start.
abbrev pub text_end : Code → ℕ
text_end Code.a1 = 220
text_end Code.a2 = 222
text_end Code.a3 = 222
text_end Code.c1 = 213
text_end Code.c2 = 215
text_end Code.c3 = 215
text_end Code.e1 = 223
text_end Code.e2 = 130
text_end Code.e3 = 122
text_end Code.e4 = 130
text_end Code.e5 = 154
text_end Code.g1 = 178
text_end Code.g2 = 178
text_end Code.g3 = 178
text_end Code.g4 = 93
text_end Code.g5 = 93
text_end Code.g6 = 222
text_end Code.m1 = 223
text_end Code.m2 = 223
text_end Code.r1 = 223
text_end Code.r2 = 211
text_end Code.r3 = 223
text_end Code.r4 = 223
text_end Code.t1 = 44
text_end Code.t2 = 106
text_end Code.t3 = 149
text_end Code.t4 = 44

needed-text_end : (c : Code) → needed (format c).reads ≡ text_end c
unfolding codec
needed-text_end Code.a1 = refl
needed-text_end Code.a2 = refl
needed-text_end Code.a3 = refl
needed-text_end Code.c1 = refl
needed-text_end Code.c2 = refl
needed-text_end Code.c3 = refl
needed-text_end Code.e1 = refl
needed-text_end Code.e2 = refl
needed-text_end Code.e3 = refl
needed-text_end Code.e4 = refl
needed-text_end Code.e5 = refl
needed-text_end Code.g1 = refl
needed-text_end Code.g2 = refl
needed-text_end Code.g3 = refl
needed-text_end Code.g4 = refl
needed-text_end Code.g5 = refl
needed-text_end Code.g6 = refl
needed-text_end Code.m1 = refl
needed-text_end Code.m2 = refl
needed-text_end Code.r1 = refl
needed-text_end Code.r2 = refl
needed-text_end Code.r3 = refl
needed-text_end Code.r4 = refl
needed-text_end Code.t1 = refl
needed-text_end Code.t2 = refl
needed-text_end Code.t3 = refl
needed-text_end Code.t4 = refl

-- `Write` returns an error on exactly the payloads that end before the last text field of the
-- message does (`text_end`), whatever its receiver held: no number behind that field is needed.
pub succeeded-message_write :
    (c : Code) (old : Body c) (b : Bytes)
    → succeeded (Interface.message_write (format c) old b) ≡ leb (text_end c) (length b)
unfolding Interface.message_write
succeeded-message_write c old b =
    succeeded-run (format c).reads (format c).count b old
    ∙ ap (λ n. leb n (length b)) (needed-text_end c)

module _ {ℓ} {M : Type ℓ} (ss : List (Statement M)) (count n : ℕ) (b : Bytes) (m : M) where
  run-trimmed_long :
      (set : M → Bytes → M)
      → n ≤ length b
      → run (trimmed n set ∷ ss) count b m ≡ run ss count (drop n b) (set m (trim (take n b)))
  unfolding run
  run-trimmed_long set long = ground arith

  run-number_long :
      (set : M → ℕ → M)
      → n ≤ length b
      → run (number n set ∷ ss) count b m
        ≡ run ss count (drop n b) (set m (from_big_endian 0 (take n b)))
  unfolding run
  run-number_long set long = ground arith

  run-number_short :
      (set : M → ℕ → M)
      → length b < n
      → run (number n set ∷ ss) count b m ≡ run ss count (drop n b) m
  unfolding run
  run-number_short set short = ground arith

run-done {ℓ} : {M : Type ℓ} (count : ℕ) (b : Bytes) (m : M) → run [] count b m ≡ written count m
unfolding run
run-done count b m = refl

-- A `Send` that ends before its quantity does is accepted, with the count of a whole one; it has
-- the quantity that the struct had before.
pub send_write_short :
    (old : Send) (b : Bytes)
    → 44 ≤ length b
    → length b < 52
    → (m : Send) × (Interface.message_write send_format old b ≡ written 52 m)
      × (m.token_qty ≡ old.token_qty)
unfolding Interface.message_write send_format
send_write_short old b long short =
    let l1 = length-drop 2 b in
    let l2 = length-drop 4 (drop 2 b) in
    let l3 = length-drop 2 (drop 4 (drop 2 b)) in
    let l4 = length-drop 1 (drop 2 (drop 4 (drop 2 b))) in
    let l5 = length-drop 3 (drop 1 (drop 2 (drop 4 (drop 2 b)))) in
    let l6 = length-drop 32 (drop 3 (drop 1 (drop 2 (drop 4 (drop 2 b))))) in
    (
      _,
      run-trimmed_long _ _ _ _ _ _ (omega arith)
          ∙ run-number_long _ _ _ _ _ _ (omega arith)
          ∙ run-trimmed_long _ _ _ _ _ _ (omega arith)
          ∙ run-number_long _ _ _ _ _ _ (omega arith)
          ∙ run-trimmed_long _ _ _ _ _ _ (omega arith)
          ∙ run-trimmed_long _ _ _ _ _ _ (omega arith)
          ∙ run-number_short _ _ _ _ _ _ (omega arith)
          ∙ run-done _ _ _,
      refl,
    )
