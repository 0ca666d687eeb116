-- ===== src/Crypto/Des.antt =====
-- thirdpart/https/aes.h, `PKCS5Padding`, `Des_Encrypt`, `Des_Decrypt`. A byte is a number.
-- OpenSSL's block cipher and the Base64 codec are parameters. An access outside an array is
-- `none`, and so is the exception of a vector that cannot be resized.
pub mod Blocks
pub mod Roundtrip
use cppserver.Prelude.{
  ℕ, zero, suc, ◌+◌, ◌-◌, ◌*◌, ◌/◌, ◌%◌, ◌==◌, List, [], ◌∷◌, ◌++◌, Option, none, some, assert,
  ◌>>=◌, ◌>>◌, leb, ltb, ◌^◌, if◌then◌else◌, length, get_elem?, take, drop, replicate,
}

-- `encrypt key block` and `decrypt key block` are `DES_ecb_encrypt` under the schedule of the key.
pub record Library : Type 0 where
  pub encrypt : List ℕ → List ℕ → List ℕ
  pub decrypt : List ℕ → List ℕ → List ℕ
  pub encode : List ℕ → List ℕ
  pub decode : List ℕ → List ℕ

-- `int nRaw_size = data.size()`: the length modulo 2 ^ 32. If that is negative, `buf.resize` throws
-- or what follows it is outside the buffer; if not, so many bytes of the text are read.
unfoldable pub narrow : List ℕ → Option (List ℕ)
narrow bytes = do let n = length bytes % 2 ^ 32; assert (ltb n (2 ^ 31)); some (take n bytes)

-- The parameter `unBlockSize` is not used by the source either.
unfoldable pub pkcs5_padding : List ℕ → List ℕ
pkcs5_padding text = let padding = 8 - length text % 8 in text ++ replicate padding padding

-- `memcpy(mem + at, src, …)`.
unfoldable pub write : ℕ → List ℕ → List ℕ → Option (List ℕ)
write at src mem = do
  assert (leb (at + length src) (length mem))
  some (take at mem ++ src ++ drop (at + length src) mem)

-- `memcpy(dst, buf + i * 8, 8)`.
unfoldable pub block : ℕ → List ℕ → List ℕ
block i buf = take 8 (drop (i * 8) buf)

-- The rounds from `i` on, `n` of them.
unfoldable pub encrypt_from : (List ℕ → List ℕ) → ℕ → ℕ → List ℕ → List ℕ → Option (List ℕ)
unfolding write block
encrypt_from cipher zero i buf mem = some mem
encrypt_from cipher (suc n) i buf mem = do
  mem1 ← write (i * 8) (cipher (block i buf)) mem
  encrypt_from cipher n (suc i) buf mem1

-- What follows `nRaw_size`. The buffer `szCommand` has 1024 bytes.
unfoldable pub encipher : Library → List ℕ → List ℕ → Option (List ℕ)
unfolding pkcs5_padding encrypt_from
encipher lib text key = do
  assert (leb 8 (length key))
  command ←
      encrypt_from (lib.encrypt (take 8 key)) (length text / 8 + 1) 0 (pkcs5_padding text)
        (replicate 1024 0)
  some (lib.encode (take ((length text / 8 + 1) * 8) command))

unfoldable pub des_encrypt : Library → List ℕ → List ℕ → Option (List ℕ)
unfolding narrow encipher
des_encrypt lib plain key = do text ← narrow plain; encipher lib text key

unfoldable pub decrypt_from : (List ℕ → List ℕ) → ℕ → ℕ → List ℕ → List ℕ → List ℕ
unfolding block
decrypt_from cipher zero i bytes cleartext = cleartext
decrypt_from cipher (suc n) i bytes cleartext =
    decrypt_from cipher n (suc i) bytes (cleartext ++ cipher (block i bytes))

-- `nPadNum = vecCleartext[nRaw_size - 1]` and the text before the padding.
unfoldable pub strip : ℕ → List ℕ → Option (List ℕ)
strip raw_size cleartext = do
  assert (leb 1 raw_size)
  pad_num ← get_elem? cleartext (raw_size - 1)
  assert (leb pad_num (length cleartext))
  some (take (length cleartext - pad_num) cleartext)

unfoldable pub decipher : Library → List ℕ → List ℕ → Option (List ℕ)
unfolding decrypt_from strip
decipher lib bytes key = do
  assert (leb 8 (length key))
  strip (length bytes) (decrypt_from (lib.decrypt (take 8 key)) (length bytes / 8) 0 bytes [])

-- A negative length reads outside `vecCleartext`.
unfoldable pub des_decrypt : Library → List ℕ → List ℕ → Option (List ℕ)
unfolding narrow decipher
des_decrypt lib text key = do bytes ← narrow (lib.decode text); decipher lib bytes key
