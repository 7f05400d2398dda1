-- ===== src/Protocol/Codec/Laws.antt =====
-- What a field that `Bytes` wrote reads back as.
use smart_contract.Prelude.{
  ℕ, zero, suc, ◌+◌, ◌-◌, ◌*◌, ◌/◌, ◌%◌, ◌≤◌, ◌<◌, Bytes, List, [], ◌∷◌, ◌++◌, All, Bool, true,
  false, length, take, drop, length-append, ◌≡◌, subst, refl, ap, ◌∙◌, arith,
}
use smart_contract.Protocol.Codec.{
  zeros, pad, big_endian, from_big_endian, trim, trim_right, keep_nonzero, Statement, trimmed,
  untrimmed, number, checked, run, Chunk, chunk_bytes, text, word, written, buffer,
}

-- 256 to the power w.
abbrev pub radix : ℕ → ℕ
radix zero = 1
radix (suc w) = radix w * 256

-- The numbers of `w` bytes.
abbrev pub Word : ℕ → ℕ → Type 0
Word w v = v < radix w

length-zeros : (n : ℕ) → length (zeros n) ≡ n
length-zeros zero = refl
length-zeros (suc n) = ap suc (length-zeros n)

pub length-pad : (v : Bytes) (n : ℕ) → length v ≤ n → length (pad v n) ≡ n
unfolding pad
length-pad v n h =
    ground (arith, length-append v (zeros (n - length v)), length-zeros (n - length v))

pub length-big_endian : (w v : ℕ) → length (big_endian w v) ≡ w
unfolding big_endian
length-big_endian zero v = refl
length-big_endian (suc w) v =
    omega (
      arith,
      length-append (big_endian w (v / 256)) ((v % 256) ∷ []),
      length-big_endian w (v / 256),
    )

from_big_endian-append :
    (xs : Bytes) (b v : ℕ) → from_big_endian v (xs ++ b ∷ []) ≡ from_big_endian v xs * 256 + b
unfolding from_big_endian
from_big_endian-append [] b v = refl
from_big_endian-append (x ∷ xs) b v = from_big_endian-append xs b (v * 256 + x)

pub from_big_endian-big_endian : (w v : ℕ) → Word w v → from_big_endian 0 (big_endian w v) ≡ v
unfolding big_endian from_big_endian
from_big_endian-big_endian zero v h = omega arith
from_big_endian-big_endian (suc w) v h = omega (
  arith,
  from_big_endian-append (big_endian w (v / 256)) (v % 256) 0,
  from_big_endian-big_endian w (v / 256) (omega arith),
)

take-append : (xs ys : Bytes) (n : ℕ) → length xs ≡ n → take n (xs ++ ys) ≡ xs
take-append [] ys zero h = refl
take-append [] ys (suc n) h = absurd (omega arith)
take-append (x ∷ xs) ys zero h = absurd (omega arith)
take-append (x ∷ xs) ys (suc n) h = ap (λ r. x ∷ r) (take-append xs ys n (omega arith))

drop-append : (xs ys : Bytes) (n : ℕ) → length xs ≡ n → drop n (xs ++ ys) ≡ ys
drop-append [] ys zero h = refl
drop-append [] ys (suc n) h = absurd (omega arith)
drop-append (x ∷ xs) ys zero h = absurd (omega arith)
drop-append (x ∷ xs) ys (suc n) h = drop-append xs ys n (omega arith)

trim_right-zeros : (n : ℕ) → trim_right (zeros n) ≡ []
trim_right-zeros zero = refl
trim_right-zeros (suc n) = ap (keep_nonzero 0) (trim_right-zeros n)

trim_right-append : (v : Bytes) (n : ℕ) → trim_right (v ++ zeros n) ≡ trim_right v
trim_right-append [] n = trim_right-zeros n
trim_right-append (b ∷ v) n = ap (keep_nonzero b) (trim_right-append v n)

pub trim-pad : (v : Bytes) (n : ℕ) → trim (pad v n) ≡ trim v
unfolding pad trim
trim-pad v n = ground (arith, trim_right-append v (n - length v))

module _ {ℓ} {M : Type ℓ} (ss : List (Statement M)) (count : ℕ) (rest : Bytes) where
  run-trimmed :
      (n : ℕ) (set : M → Bytes → M) (m : M) (v : Bytes)
      → length v ≤ n
      → run (trimmed n set ∷ ss) count (pad v n ++ rest) m ≡ run ss count rest (set m (trim v))
  unfolding run
  run-trimmed n set m v short = ground (
    arith,
    length-append (pad v n) rest,
    length-pad v n short,
    take-append (pad v n) rest n,
    drop-append (pad v n) rest n,
    trim-pad v n,
  )

  run-untrimmed :
      (n : ℕ) (set : M → Bytes → M) (m : M) (v : Bytes)
      → length v ≤ n
      → run (untrimmed n set ∷ ss) count (pad v n ++ rest) m ≡ run ss count rest (set m (pad v n))
  unfolding run
  run-untrimmed n set m v short = ground (
    arith,
    length-append (pad v n) rest,
    length-pad v n short,
    take-append (pad v n) rest n,
    drop-append (pad v n) rest n,
  )

  module _ (w : ℕ) (set : M → ℕ → M) (m : M) (v : ℕ) (small : Word w v) where
    run-number :
        run (number w set ∷ ss) count (big_endian w v ++ rest) m ≡ run ss count rest (set m v)
    unfolding run
    run-number = ground (
      arith,
      length-append (big_endian w v) rest,
      length-big_endian w v,
      take-append (big_endian w v) rest w,
      drop-append (big_endian w v) rest w,
      from_big_endian-big_endian w v,
    )

    run-checked :
        run (checked w set ∷ ss) count (big_endian w v ++ rest) m ≡ run ss count rest (set m v)
    unfolding run
    run-checked = ground (
      arith,
      length-append (big_endian w v) rest,
      length-big_endian w v,
      take-append (big_endian w v) rest w,
      drop-append (big_endian w v) rest w,
      from_big_endian-big_endian w v,
    )

-- The values that were written fit their widths.
abbrev pub FitsChunk : Chunk → Type 0
FitsChunk (text v n) = length v ≤ n
FitsChunk (word w v) = Word w v

-- Whether a text stands there, and the width.
abbrev chunk_shape : Chunk → Bool × ℕ
chunk_shape (text v n) = (true, n)
chunk_shape (word w v) = (false, w)

abbrev pub chunk_shapes : List Chunk → List (Bool × ℕ)
chunk_shapes [] = []
chunk_shapes (c ∷ cs) = chunk_shape c ∷ chunk_shapes cs

module _ {ℓ} {M : Type ℓ} where
  abbrev statement_shape : Statement M → Bool × ℕ
  statement_shape (trimmed n set) = (true, n)
  statement_shape (untrimmed n set) = (true, n)
  statement_shape (number w set) = (false, w)
  statement_shape (checked w set) = (false, w)

  abbrev pub statement_shapes : List (Statement M) → List (Bool × ℕ)
  statement_shapes [] = []
  statement_shapes (s ∷ ss) = statement_shape s ∷ statement_shapes ss

  -- What a statement makes of a value that was written in the same shape.
  abbrev apply : Statement M → Chunk → M → M
  apply (trimmed n set) (text v k) m = set m (trim v)
  apply (untrimmed n set) (text v k) m = set m (pad v k)
  apply (number w set) (word k v) m = set m v
  apply (checked w set) (word k v) m = set m v
  apply _ _ m = m

  abbrev pub apply_all : List (Statement M) → List Chunk → M → M
  apply_all (s ∷ ss) (c ∷ cs) m = apply_all ss cs (apply s c m)
  apply_all _ _ m = m

  run-chunk :
      (s : Statement M) (ss : List (Statement M)) (c : Chunk) (count : ℕ) (rest : Bytes) (m : M)
      → FitsChunk c
      → chunk_shape c ≡ statement_shape s
      → run (s ∷ ss) count (chunk_bytes c ++ rest) m ≡ run ss count rest (apply s c m)
  run-chunk (trimmed n set) ss (text v k) count rest m short same =
      let width = ap (λ p. p.1) same in
      rw width (run-trimmed ss count rest n set m v (omega (arith, width)))
  run-chunk (untrimmed n set) ss (text v k) count rest m short same =
      let width = ap (λ p. p.1) same in
      rw width (run-untrimmed ss count rest n set m v (omega (arith, width)))
  run-chunk (number w set) ss (word k v) count rest m small same =
      let width = ap (λ p. p.1) same in
      rw width (run-number ss count rest w set m v (subst (λ k. Word k v) width small))
  run-chunk (checked w set) ss (word k v) count rest m small same =
      let width = ap (λ p. p.1) same in
      rw width (run-checked ss count rest w set m v (subst (λ k. Word k v) width small))
  run-chunk (trimmed n set) ss (word k v) count rest m fits same = cc (ap (λ p. p.0) same)
  run-chunk (untrimmed n set) ss (word k v) count rest m fits same = cc (ap (λ p. p.0) same)
  run-chunk (number w set) ss (text v k) count rest m fits same = cc (ap (λ p. p.0) same)
  run-chunk (checked w set) ss (text v k) count rest m fits same = cc (ap (λ p. p.0) same)

  -- The statements of a `Write` on the bytes of values that fit, written in the same shape.
  pub run-buffer :
      (ss : List (Statement M)) (cs : List Chunk) (count : ℕ) (m : M)
      → All FitsChunk cs
      → chunk_shapes cs ≡ statement_shapes ss
      → run ss count (buffer cs) m ≡ written count (apply_all ss cs m)
  unfolding run
  run-buffer [] [] count m fits same = refl
  run-buffer [] (c ∷ cs) count m fits same = cc
  run-buffer (s ∷ ss) [] count m fits same = cc
  run-buffer (s ∷ ss) (c ∷ cs) count m (fit, fits) same =
      run-chunk s ss c count (buffer cs) m fit (cc same)
      ∙ run-buffer ss cs count (apply s c m) fits (cc same)

-- The widths together.
abbrev pub total : List (Bool × ℕ) → ℕ
total [] = 0
total ((is_text, n) ∷ rest) = n + total rest

pub length-buffer :
    (cs : List Chunk) → All FitsChunk cs → length (buffer cs) ≡ total (chunk_shapes cs)
length-buffer [] fits = refl
length-buffer (text v n ∷ cs) (short, fits) =
    omega (arith, length-append (pad v n) (buffer cs), length-pad v n short, length-buffer cs fits)
length-buffer (word w v ∷ cs) (small, fits) = omega (
  arith,
  length-append (big_endian w v) (buffer cs),
  length-big_endian w v,
  length-buffer cs fits,
)

-- The shapes of a message agree where the length of its header does.
pub header_shape :
    (rest : List (Bool × ℕ)) {n k : ℕ}
    → n ≡ k
    → ◌≡◌ {A = List (Bool × ℕ)} ((true, n) ∷ rest) ((true, k) ∷ rest)
header_shape rest e = ap (λ n. (true, n) ∷ rest) e
