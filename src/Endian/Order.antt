-- ===== src/Endian/Order.antt =====
-- thirdpart/libwebsocket/private/Endian.h: what the readers give for the bytes of a number.
use Prim.Native.Nat.{bit_or}
use cppserver.Prelude.{
  ℕ, zero, suc, ◌+◌, ◌*◌, ◌/◌, ◌%◌, ◌^◌, ◌<◌, ◌≡◌, refl, ap, ◌∙◌, arith, lt→ltb, List, [], ◌∷◌,
  ◌++◌, Option, none, some, ◌>>=◌,
}
use cppserver.Endian.{
  shift_left, be16_big_endian, be16_little_endian, be32_big_endian, be32_little_endian,
  be64_big_endian, be64_little_endian,
}
use cppserver.Endian.Bits.{bit_or-eq-add}

-- The last `k` bytes of a number, the lowest first.
abbrev pub low_bytes : ℕ → ℕ → List ℕ
low_bytes zero n = []
low_bytes (suc k) n = n % 256 ∷ low_bytes k (n / 256)

-- The last `k` bytes of a number, the highest first.
abbrev pub high_bytes : ℕ → ℕ → List ℕ
high_bytes zero n = []
high_bytes (suc k) n = n / 2 ^ (8 * k) % 256 ∷ high_bytes k n

shift_left-byte : (c k : ℕ) → k < 32 → c * 2 ^ k < 2 ^ 32 → shift_left c k ≡ some (c * 2 ^ k)
unfolding shift_left
shift_left-byte c k p q = rw (lt→ltb k 32 p, lt→ltb (c * 2 ^ k) (2 ^ 32) q) refl

two : (c0 c1 : ℕ) → c1 < 256 → bit_or (c0 * 2 ^ 8) c1 ≡ c0 * 2 ^ 8 + c1
two c0 c1 h = bit_or-eq-add 8 c0 c1 h

-- Each or is a sum: what stands to its left has only zeros in the places of what stands to its
-- right.
four :
    (c0 c1 c2 c3 : ℕ)
    → c1 < 256
    → c2 < 256
    → c3 < 256
    → bit_or (bit_or (bit_or (c0 * 2 ^ 24) (c1 * 2 ^ 16)) (c2 * 2 ^ 8)) c3
      ≡ c0 * 2 ^ 24 + c1 * 2 ^ 16 + c2 * 2 ^ 8 + c3
four c0 c1 c2 c3 h1 h2 h3 =
    let first : bit_or (c0 * 2 ^ 24) (c1 * 2 ^ 16) ≡ (c0 * 256 + c1) * 2 ^ 16 =
      omega (arith, bit_or-eq-add 24 c0 (c1 * 2 ^ 16) (omega arith)) in
    let second : bit_or ((c0 * 256 + c1) * 2 ^ 16) (c2 * 2 ^ 8)
        ≡ (c0 * 65536 + c1 * 256 + c2) * 2 ^ 8 =
      omega (arith, bit_or-eq-add 16 (c0 * 256 + c1) (c2 * 2 ^ 8) (omega arith)) in
    rw (first, second) (omega (arith, bit_or-eq-add 8 (c0 * 65536 + c1 * 256 + c2) c3 h3))

-- The four bytes in the places that the readers of 32 bits give them.
four_shifts :
    (c0 c1 c2 c3 : ℕ)
    → c0 < 256
    → c1 < 256
    → c2 < 256
    → c3 < 256
    → (shift_left c0 24 >>= λ x0. shift_left c1 16 >>= λ x1.
        shift_left c2 8 >>= λ x2. some (bit_or (bit_or (bit_or x0 x1) x2) c3))
      ≡ some (c0 * 2 ^ 24 + c1 * 2 ^ 16 + c2 * 2 ^ 8 + c3)
four_shifts c0 c1 c2 c3 h0 h1 h2 h3 =
    rw
      (
        shift_left-byte c0 24 (omega arith) (omega arith),
        shift_left-byte c1 16 (omega arith) (omega arith),
        shift_left-byte c2 8 (omega arith) (omega arith),
        four c0 c1 c2 c3 h1 h2 h3,
      )
      refl

pub be16_little_endian-bytes :
    (n : ℕ) (rest : List ℕ) → n < 2 ^ 16 → be16_little_endian (low_bytes 2 n ++ rest) ≡ some n
unfolding be16_little_endian
be16_little_endian-bytes n rest h =
    rw
      (
        shift_left-byte (n / 256 % 256) 8 (omega arith) (omega arith),
        two (n / 256 % 256) (n % 256) (omega arith),
      )
      (ap some (omega arith))

pub be32_little_endian-bytes :
    (n : ℕ) (rest : List ℕ) → n < 2 ^ 32 → be32_little_endian (low_bytes 4 n ++ rest) ≡ some n
unfolding be32_little_endian
be32_little_endian-bytes n rest h =
    four_shifts (n / 256 / 256 / 256 % 256) (n / 256 / 256 % 256) (n / 256 % 256) (n % 256)
      (omega arith) (omega arith) (omega arith) (omega arith)
    ∙ ap some (omega arith)

pub be32_big_endian-bytes :
    (n : ℕ) (rest : List ℕ) → n < 2 ^ 32 → be32_big_endian (high_bytes 4 n ++ rest) ≡ some n
unfolding be32_big_endian
be32_big_endian-bytes n rest h =
    four_shifts (n / 16777216 % 256) (n / 2 ^ (8 * 2) % 256) (n / 2 ^ (8 * 1) % 256)
      (n / 2 ^ (8 * 0) % 256) (omega arith) (omega arith) (omega arith) (omega arith)
    ∙ ap some (omega arith)

-- Whatever follows the bytes: be32BigEndian gives a number of 32 bits back from its four bytes
-- with the highest first, be32LittleEndian from those with the lowest first, and be16LittleEndian
-- one of 16 bits from its two with the lowest first.
pub endian_bytes :
    (m n : ℕ) (rest : List ℕ)
    → m < 2 ^ 16
    → n < 2 ^ 32
    → (be32_big_endian (high_bytes 4 n ++ rest) ≡ some n)
      × (be32_little_endian (low_bytes 4 n ++ rest) ≡ some n)
      × (be16_little_endian (low_bytes 2 m ++ rest) ≡ some m)
endian_bytes m n rest l h = (
  be32_big_endian-bytes n rest h,
  be32_little_endian-bytes n rest h,
  be16_little_endian-bytes m rest l,
)

-- The object has two bytes, and the third is read.
pub be16_big_endian-two : (c0 c1 : ℕ) → be16_big_endian (c0 ∷ c1 ∷ []) ≡ none
unfolding be16_big_endian
be16_big_endian-two c0 c1 = refl

bind-none : (o : Option ℕ) → ◌>>=◌ {B = ℕ} o (λ _. none) ≡ none
bind-none none = refl
bind-none (some _) = refl

-- The first shift is by 56, of an `int`.
pub be64_big_endian-none : (ch : List ℕ) → be64_big_endian ch ≡ none
unfolding be64_big_endian shift_left
be64_big_endian-none ch = simp (bind-none)

pub be64_little_endian-none : (ch : List ℕ) → be64_little_endian ch ≡ none
unfolding be64_little_endian shift_left
be64_little_endian-none ch = simp (bind-none)
