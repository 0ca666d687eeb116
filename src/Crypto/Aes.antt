-- ===== src/Crypto/Aes.antt =====
-- thirdpart/https/aes.h, `Padding`, `StringToHex`, `AES_ECBEncrypt`, `ClearPadding` and the
-- branch of `AES_ECBDecrypt` that is compiled. OpenSSL's cipher, the Base64 codec and the regular
-- expression are parameters. An access outside an array, an `int` that overflows, and a `new` of a
-- negative size, which throws, are `none`.
pub mod Padding
pub mod Blocks
pub mod Rounds
pub mod Roundtrip
use cppserver.Prelude.{
  ℕ, zero, suc, ◌+◌, ◌-◌, ◌*◌, ◌/◌, ◌%◌, ◌==◌, Bool, true, false, not, List, [], ◌∷◌, ◌++◌, Option,
  none, some, assert, ◌>>=◌, ◌>>◌, leb, ltb, ◌^◌, if◌then◌else◌, length, get_elem?, set, take, drop,
  replicate, min,
}

-- `set_key` says whether OpenSSL takes a key of that many bits; the tests of a key are the same
-- for both directions. The bits are those of an `int`. `matches` is the regular expression.
pub record Library : Type 0 where
  pub set_key : List ℕ → ℕ → Bool
  pub encrypt : List ℕ → List ℕ → List ℕ
  pub decrypt : List ℕ → List ℕ → List ℕ
  pub encode : List ℕ → List ℕ
  pub decode : List ℕ → List ℕ
  pub matches : List ℕ → Bool

-- A C string: what stands before the first zero.
unfoldable pub c_string : List ℕ → List ℕ
c_string [] = []
c_string (b ∷ bs) = if b == 0 then [] else b ∷ c_string bs

-- `Padding(pSrc, n)`, where the first n of the 16 bytes are those of `src`.
unfoldable pub pad : List ℕ → List ℕ
pad src = if ltb (length src) 16 then src ++ replicate (16 - length src) (16 - length src) else src

-- `StringToHex(pSrc, pDest, 16)`. A null pointer is an empty text. `int nSrcLen = strlen(pSrc)` is
-- the length modulo 2 ^ 32; if it is negative, `memcpy` takes it for a size beyond the text.
unfoldable pub string_to_hex : List ℕ → Option (List ℕ)
unfolding c_string pad
string_to_hex src = do
  let n = length (c_string src) % 2 ^ 32
  assert (ltb n (2 ^ 31))
  some (pad (take (min 16 n) src))

-- `while ((pTmpSrc - pSrc) < nSrcLen) { … }`, from `at` on; the fuel is the number of rounds.
unfoldable pub encrypt_loop : (List ℕ → List ℕ) → ℕ → ℕ → ℕ → List ℕ → Option (List ℕ)
unfolding string_to_hex
encrypt_loop cipher src_len zero at text = some []
encrypt_loop cipher src_len (suc fuel) at text =
    let rest = encrypt_loop cipher src_len fuel (at + 16) text in
    if ltb at src_len
    then (do buf ← string_to_hex (drop at text); after ← rest; some (cipher buf ++ after))
    else some []

-- `nDestLen = (nSrcLen / 16) * 16 + 16`, of the bits of `nSrcLen`: the sum overflows, or the size is
-- negative, or the size is that of a small negative `nSrcLen`, which a division rounds up.
unfoldable pub dest_len : ℕ → Option ℕ
dest_len n =
    if ltb n (2 ^ 31 - 16)
    then some (n / 16 * 16 + 16)
    else if ltb n (2 ^ 32 - 31)
    then none
    else if ltb n (2 ^ 32 - 15)
    then some 0
    else some 16

-- `nSrcLen` is the length modulo 2 ^ 32; where it is negative there are no rounds. If the rounds
-- leave the destination short, a block of padding follows.
unfoldable pub aes_encrypt : Library → List ℕ → List ℕ → Option (List ℕ)
unfolding string_to_hex encrypt_loop dest_len
aes_encrypt lib text key = do
  hex ← string_to_hex key
  if lib.set_key hex 128
      then (do
        let n = length text % 2 ^ 32
        let src_len = if ltb n (2 ^ 31) then n else 0
        size ← dest_len n
        filled ← encrypt_loop (lib.encrypt hex) src_len (src_len / 16 + 1) 0 text
        buf ← string_to_hex []
        some
            (lib.encode (filled ++ (if ltb (length filled) size then lib.encrypt hex buf else []))))
      else some []

-- `for (int i = …; i < 16; ++i) if (last == i) { pSrc[n - 1] = 0; break; }`.
unfoldable pub clear_one : ℕ → ℕ → ℕ → List ℕ → List ℕ
clear_one zero i last src = src
clear_one (suc rounds) i last src =
    if last == i then set src (length src - 1) 0 else clear_one rounds (suc i) last src

-- `for (int i = …; i <= nEnd - nStart; ++i) if (last != pSrc[n - 1 - i]) { pSrc[n - i] = 0;
-- break; }`.
unfoldable pub clear_run : ℕ → ℕ → ℕ → List ℕ → Option (List ℕ)
clear_run zero i last src = some src
clear_run (suc rounds) i last src = do
  assert (leb (i + 1) (length src))
  b ← get_elem? src (length src - 1 - i)
  if b == last then clear_run rounds (suc i) last src else some (set src (length src - i) 0)

-- `nEnd - nStart` is what is left of the last whole block: 16 and the rest of the length.
unfoldable pub clear_padding : List ℕ → Option (List ℕ)
unfolding clear_one clear_run
clear_padding src = do
  assert (leb 2 (length src))
  last ← get_elem? src (length src - 1)
  before ← get_elem? src (length src - 2)
  if before == last
      then clear_run (16 + length src % 16 - 1) 2 last src
      else some (clear_one 16 0 last src)

-- `ClearPadding(dst, dstlen)`: the parameter is an `int`, the length modulo 2 ^ 32; if it is
-- negative, the first access is outside.
unfoldable pub clear_narrowed : List ℕ → Option (List ℕ)
unfolding clear_padding
clear_narrowed dst = do
  let n = length dst % 2 ^ 32
  assert (ltb n (2 ^ 31))
  cleared ← clear_padding (take n dst)
  some (cleared ++ drop n dst)

-- The rounds of `while (len < dstlen)`; each reads 16 bytes of the source.
unfoldable pub decrypt_loop : (List ℕ → List ℕ) → ℕ → ℕ → List ℕ → Option (List ℕ)
decrypt_loop cipher zero at bytes = some []
decrypt_loop cipher (suc fuel) at bytes =
    if ltb at (length bytes)
    then (do
      assert (leb (at + 16) (length bytes))
      rest ← decrypt_loop cipher fuel (at + 16) bytes
      some (cipher (take 16 (drop at bytes)) ++ rest))
    else some []

-- `slack` says whether the byte behind `dst`, where `dst[len] = 0` is written, may be written.
unfoldable pub aes_decrypt : Bool → Library → List ℕ → List ℕ → Option (List ℕ)
unfolding decrypt_loop clear_narrowed c_string
aes_decrypt slack lib code key =
    let bytes = lib.decode code in
    if length bytes == 0
    then some []
    else if lib.set_key key (length key * 8 % 2 ^ 32)
    then (do
      plain ← decrypt_loop (lib.decrypt key) (length bytes / 16 + 1) 0 bytes
      cleared ← clear_narrowed plain
      assert slack
      some (if lib.matches (c_string cleared) then c_string cleared else []))
    else some []
