-- ===== src/Endian.antt =====
-- thirdpart/libwebsocket/private/Endian.h: numbers read from bytes in either order. The list is the
-- object that the pointer points into; a read behind it is `none`.
pub mod Bits
pub mod Order
use Prim.Native.Nat.{bit_or}
use cppserver.Prelude.{
  ℕ, ◌*◌, ◌^◌, ◌%◌, ltb, ◌&&◌, List, Option, none, some, if◌then◌else◌, get_elem?, ◌>>=◌,
}

-- `c << k` of a byte, which is an `int`, as its 32 bits: a shift by 32 or more is undefined, and
-- so is one whose value does not fit 32 bits.
unfoldable pub shift_left : ℕ → ℕ → Option ℕ
shift_left c k = if ltb k 32 && ltb (c * 2 ^ k) (2 ^ 32) then some (c * 2 ^ k) else none

unfoldable pub be16_big_endian : List ℕ → Option ℕ
be16_big_endian ch = do
  c0 ← get_elem? ch 0
  c1 ← get_elem? ch 1
  c2 ← get_elem? ch 2
  c3 ← get_elem? ch 3
  high ← shift_left c0 8
  some (bit_or high c1 % 2 ^ 16)

unfoldable pub be16_little_endian : List ℕ → Option ℕ
be16_little_endian ch = do
  c0 ← get_elem? ch 0
  c1 ← get_elem? ch 1
  high ← shift_left c1 8
  some (bit_or high c0 % 2 ^ 16)

unfoldable pub be32_big_endian : List ℕ → Option ℕ
be32_big_endian ch = do
  c0 ← get_elem? ch 0
  c1 ← get_elem? ch 1
  c2 ← get_elem? ch 2
  c3 ← get_elem? ch 3
  x0 ← shift_left c0 24
  x1 ← shift_left c1 16
  x2 ← shift_left c2 8
  some (bit_or (bit_or (bit_or x0 x1) x2) c3)

unfoldable pub be32_little_endian : List ℕ → Option ℕ
be32_little_endian ch = do
  c0 ← get_elem? ch 0
  c1 ← get_elem? ch 1
  c2 ← get_elem? ch 2
  c3 ← get_elem? ch 3
  x3 ← shift_left c3 24
  x2 ← shift_left c2 16
  x1 ← shift_left c1 8
  some (bit_or (bit_or (bit_or x3 x2) x1) c0)

unfoldable pub be64_big_endian : List ℕ → Option ℕ
be64_big_endian ch = do
  c0 ← get_elem? ch 0
  c1 ← get_elem? ch 1
  c2 ← get_elem? ch 2
  c3 ← get_elem? ch 3
  c4 ← get_elem? ch 4
  c5 ← get_elem? ch 5
  c6 ← get_elem? ch 6
  c7 ← get_elem? ch 7
  x0 ← shift_left c0 56
  x1 ← shift_left c1 48
  x2 ← shift_left c2 40
  x3 ← shift_left c3 32
  x4 ← shift_left c4 24
  x5 ← shift_left c5 16
  x6 ← shift_left c6 8
  some (bit_or (bit_or (bit_or (bit_or (bit_or (bit_or (bit_or x0 x1) x2) x3) x4) x5) x6) c7)

unfoldable pub be64_little_endian : List ℕ → Option ℕ
be64_little_endian ch = do
  c0 ← get_elem? ch 0
  c1 ← get_elem? ch 1
  c2 ← get_elem? ch 2
  c3 ← get_elem? ch 3
  c4 ← get_elem? ch 4
  c5 ← get_elem? ch 5
  c6 ← get_elem? ch 6
  c7 ← get_elem? ch 7
  x7 ← shift_left c7 56
  x6 ← shift_left c6 48
  x5 ← shift_left c5 40
  x4 ← shift_left c4 32
  x3 ← shift_left c3 24
  x2 ← shift_left c2 16
  x1 ← shift_left c1 8
  some (bit_or (bit_or (bit_or (bit_or (bit_or (bit_or (bit_or x7 x6) x5) x4) x3) x2) x1) c0)
