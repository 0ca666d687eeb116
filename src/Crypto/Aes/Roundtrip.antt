-- ===== src/Crypto/Aes/Roundtrip.antt =====
-- thirdpart/https/aes.h: a text that `AES_ECBEncrypt` enciphers is given back by `AES_ECBDecrypt`.
use native.Mathlib.Nat.{mod-eq_of_lt}
use mathlib.Core.List.{append-nil}
use cppserver.Prelude.{
  ◌^◌, ◌-◌, ◌%◌, drop, [], ◌∷◌, lt→ltb, Option-cases, inl, inr, ℕ, suc, ◌+◌, ◌*◌, ◌/◌, ◌<◌, ◌≡◌,
  refl, ap, ◌∙◌, true, false, List, ◌++◌, some, ◌==◌, ltb, length, take, min, arith,
}
use cppserver.Crypto.Aes.{
  Library, c_string, pad, string_to_hex, encrypt_loop, dest_len, aes_encrypt, decrypt_loop,
  clear_padding, clear_narrowed, aes_decrypt,
}
use cppserver.Crypto.Aes.Padding.{IsText, clear_padding-ends}
use cppserver.Crypto.Aes.Rounds.{
  filled_block, string_to_hex-block, text_rounds, encrypt_loop-rounds, rounds-each16, rounds-short,
}
use cppserver.Crypto.Aes.Blocks.{
  each16, padding, decrypt_loop-each16, each16-inverse, padded-IsBytes, length-padded,
}
use cppserver.Crypto.Des.Blocks.{take_all, IsBytes}

-- What the sources rely on under a key of 16 bytes: it is taken as one of 128 bits, a block of 16
-- bytes is enciphered to one that is deciphered to it, and the codec gives back what it was
-- given.
pub record Works (lib : Library) (key : List ℕ) : Type 0 where
  pub accepts : lib.set_key key 128 ≡ true
  pub cipher_inverse :
      (b : List ℕ)
      → length b ≡ 16
      → IsBytes b
      → (length (lib.encrypt key b) ≡ 16)
        × IsBytes (lib.encrypt key b)
        × (lib.decrypt key (lib.encrypt key b) ≡ b)
  pub codec_inverse : (bs : List ℕ) → IsBytes bs → lib.decode (lib.encode bs) ≡ bs

-- A key of 16 bytes without a zero is left as it is.
string_to_hex-key :
    (key : List ℕ) → length key ≡ 16 → c_string key ≡ key → string_to_hex key ≡ some key
unfolding filled_block pad
string_to_hex-key key size whole =
    let all : take (min 16 (length (c_string key))) key ≡ key =
      take_all (min 16 (length (c_string key))) key
        (omega (arith, ap (λ (k : List ℕ). length k) whole)) in
    let full : ltb (length key) 16 ≡ false = ground (arith, size) in
    string_to_hex-block key (omega (arith, size)) ∙ rw (all, full) refl

aes_encrypt-each16 :
    (lib : Library) (text key : List ℕ)
    → Works lib key
    → length key ≡ 16
    → c_string key ≡ key
    → IsText text
    → IsBytes text
    → length text < 2 ^ 31 - 16
    → aes_encrypt lib text key
      ≡ some (lib.encode (each16 (lib.encrypt key) (suc (length text / 16)) (text ++ padding text)))
unfolding aes_encrypt dest_len filled_block
aes_encrypt-each16 lib text key works size whole h bytes small =
    let n = length text / 16 in
    let cipher = lib.encrypt key in
    let same : length text % 2 ^ 32 ≡ length text = mod-eq_of_lt (omega arith) in
    let fits : ltb (length text) (2 ^ 31) ≡ true = lt→ltb (length text) (2 ^ 31) (omega arith) in
    let room : ltb (length text) (2 ^ 31 - 16) ≡ true = lt→ltb (length text) (2 ^ 31 - 16) small in
    let rounds : encrypt_loop cipher (length text) (n + 1) 0 text
        ≡ some (text_rounds cipher (suc n) text) =
      encrypt_loop-rounds cipher (n + 1) 0 text (omega arith)
      ∙ ap (λ k. some (text_rounds cipher k text)) (omega arith) in
    let short = rounds-short cipher n text (λ b e g. (works.cipher_inverse b e g).0) h bytes refl in
    rw (string_to_hex-key key size whole, works.accepts, same, fits, room, rounds, short)
      (ap (λ r. some (lib.encode r)) (rounds-each16 cipher n text h refl))

clear_narrowed-eq : (dst : List ℕ) → length dst < 2 ^ 31 → clear_narrowed dst ≡ clear_padding dst
unfolding clear_narrowed
clear_narrowed-eq dst h =
    let same : length dst % 2 ^ 32 ≡ length dst = mod-eq_of_lt (omega arith) in
    let fits : ltb (length dst) (2 ^ 31) ≡ true = lt→ltb (length dst) (2 ^ 31) h in
    let none_left : drop (length dst) dst ≡ [] = nothing_left dst in
    elim (Option-cases (clear_padding dst)) [
      | inl outside ↦ rw (same, fits, take_all (length dst) dst (omega arith), outside) refl
      | inr (cleared, e) ↦
          rw (same, fits, take_all (length dst) dst (omega arith), e, none_left)
            (ap some (append-nil cleared))
    ]
  where
    nothing_left : (xs : List ℕ) → drop (length xs) xs ≡ []
    nothing_left [] = refl
    nothing_left (x ∷ xs) = nothing_left xs

-- If the block cipher and the codec invert each other under a key of 16 bytes that has no zero
-- and is accepted, if the byte behind the destination may be written, and if the regular
-- expression accepts the text, then AES_ECBEncrypt enciphers every text of at least one byte and
-- fewer than 2 ^ 31 - 16, all bytes more than 16, and AES_ECBDecrypt gives it back; besides that
-- byte nothing outside an array is touched.
pub aes_decrypt-aes_encrypt :
    (lib : Library) (text key : List ℕ)
    → Works lib key
    → length key ≡ 16
    → c_string key ≡ key
    → IsText text
    → IsBytes text
    → 0 < length text
    → length text < 2 ^ 31 - 16
    → lib.matches text ≡ true
    → (code : List ℕ) × (aes_encrypt lib text key ≡ some code)
      × (aes_decrypt true lib code key ≡ some text)
unfolding aes_decrypt
aes_decrypt-aes_encrypt lib text key works size whole h bytes full small accepted =
    let n = length text / 16 in
    let padded = text ++ padding text in
    let sent = each16 (lib.encrypt key) (suc n) padded in
    let (long, good, back) =
      each16-inverse (lib.encrypt key) (lib.decrypt key) (suc n) padded works.cipher_inverse
        (length-padded text) (padded-IsBytes text bytes) in
    let decoded : lib.decode (lib.encode sent) ≡ sent = works.codec_inverse sent good in
    let some_bytes : (length sent == 0) ≡ false = ground (arith, long) in
    let bits : length key * 8 % 2 ^ 32 ≡ 128 = omega (arith, size) in
    let rounds : length sent / 16 + 1 ≡ suc (suc n) = omega (arith, long) in
    let plain : decrypt_loop (lib.decrypt key) (suc (suc n)) 0 sent ≡ some padded =
      decrypt_loop-each16 (lib.decrypt key) (suc n) 0 sent (omega (arith, long)) ∙ ap some back in
    let narrowed = clear_narrowed-eq padded (omega (arith, length-padded text)) in
    let (cleared, ends, ended) = clear_padding-ends text h full in
    (
      lib.encode sent,
      aes_encrypt-each16 lib text key works size whole h bytes small,
      rw (decoded, some_bytes, bits, works.accepts, rounds, plain, narrowed, ends, ended, accepted)
          refl,
    )
