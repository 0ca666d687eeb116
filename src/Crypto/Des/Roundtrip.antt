-- ===== src/Crypto/Des/Roundtrip.antt =====
-- thirdpart/https/aes.h: a text that `Des_Encrypt` takes is given back by `Des_Decrypt`.
use native.Mathlib.Nat.{mod-eq_of_lt}
use cppserver.Prelude.{
  ℕ, zero, suc, ◌+◌, ◌-◌, ◌*◌, ◌/◌, ◌%◌, ◌≤◌, ◌<◌, ◌≡◌, refl, sym, ap, ◌∙◌, List, [], ◌∷◌, ◌++◌,
  some, length, get_elem?, take, drop, replicate, arith, length-append, length-replicate, ltb,
  lt→ltb, ◌^◌, true, All-append, take-append_length,
}
use cppserver.Crypto.Des.{
  narrow, encipher, decipher, Library, pkcs5_padding, block, encrypt_from, des_encrypt,
  decrypt_from, strip, des_decrypt,
}
use cppserver.Crypto.Des.Blocks.{
  take_all, IsBytes, Works, each_block, All-take, All-drop, decrypt_from-each, length-block,
  encrypt_from-each, encrypted-IsBytes,
}

padding-IsBytes : (n p : ℕ) → p < 256 → IsBytes (replicate n p)
padding-IsBytes zero p h = tt
padding-IsBytes (suc n) p h = (h, padding-IsBytes n p h)

length-pkcs5_padding : (text : List ℕ) → length (pkcs5_padding text) ≡ (length text / 8 + 1) * 8
unfolding pkcs5_padding
length-pkcs5_padding text = omega (
  arith,
  length-append text (replicate (8 - length text % 8) (8 - length text % 8)),
  length-replicate (8 - length text % 8) (8 - length text % 8),
)

last_padding :
    (text : List ℕ) (n p k : ℕ)
    → 1 ≤ n
    → k + 1 ≡ length text + n
    → get_elem? (text ++ replicate n p) k ≡ some p
last_padding [] zero p k h e = absurd (omega arith)
last_padding [] (suc n) p zero h e = refl
last_padding [] (suc n) p (suc k) h e = last_padding [] n p k (omega arith) (omega arith)
last_padding (x ∷ text) n p zero h e = absurd (omega arith)
last_padding (x ∷ text) n p (suc k) h e = last_padding text n p k h (omega arith)

-- The padding says how much of it there is.
strip-padding :
    (text : List ℕ) → strip (length (pkcs5_padding text)) (pkcs5_padding text) ≡ some text
unfolding strip pkcs5_padding
strip-padding text =
    let p = 8 - length text % 8 in
    let size : length (text ++ replicate p p) ≡ length text + p =
      omega (arith, length-append text (replicate p p), length-replicate p p) in
    let pad : get_elem? (text ++ replicate p p) (length text + p - 1) ≡ some p =
      last_padding text p p (length text + p - 1) (omega arith) (omega arith) in
    let front : take (length text + p - p) (text ++ replicate p p) ≡ text =
      take-append_length (length text + p - p) text (replicate p p) (omega arith) in
    rw (size, pad, front) (ground (arith, size))

encrypted :
    (cipher : List ℕ → List ℕ) (n : ℕ) (buf mem : List ℕ)
    → ((k : ℕ) → k < n → length (cipher (block k buf)) ≡ 8)
    → n * 8 ≤ length mem
    → (mem' : List ℕ) × (encrypt_from cipher n 0 buf mem ≡ some mem')
      × (take (n * 8) mem' ≡ each_block cipher n buf)
encrypted cipher n buf mem eights room =
    let (mem', ran, written) =
      encrypt_from-each cipher n 0 buf mem (λ k h. eights k (omega arith)) (omega arith) in
    (mem', ran, ap (λ k. take (k * 8) mem') {x = n} {y = 0 + n} (omega arith) ∙ written)

pkcs5_padding-IsBytes : (text : List ℕ) → IsBytes text → IsBytes (pkcs5_padding text)
unfolding pkcs5_padding
pkcs5_padding-IsBytes text h =
    let p = 8 - length text % 8 in
    All-append (λ (x : ℕ). x < 256) text (replicate p p) h (padding-IsBytes p p (omega arith))

-- What the loop of `Des_Decrypt` makes of the whole buffer.
decrypted :
    (lib : Library) (text key : List ℕ)
    → Works lib
    → IsBytes text
    → let n = length text / 8 + 1 in
      let sent = each_block (lib.encrypt key) n (pkcs5_padding text) in
      (length sent ≡ n * 8)
      × IsBytes sent
      × (decrypt_from (lib.decrypt key) (length sent / 8) 0 sent [] ≡ pkcs5_padding text)
decrypted lib text key works bytes =
    let n = length text / 8 + 1 in
    let sent = each_block (lib.encrypt key) n (pkcs5_padding text) in
    let (size, good, back) =
      encrypted-IsBytes lib works key n (pkcs5_padding text) (length-pkcs5_padding text)
        (pkcs5_padding-IsBytes text bytes) in
    let count : length sent / 8 ≡ n = omega (arith, size) in
    (size, good, rw (count, decrypt_from-each (lib.decrypt key) n 0 sent []) back)

decipher-encipher :
    (lib : Library) (text key : List ℕ)
    → Works lib
    → IsBytes text
    → length text < 1024
    → 8 ≤ length key
    → (code : List ℕ) × (encipher lib text key ≡ some code)
      × (length (lib.decode code) < 2 ^ 31)
      × (decipher lib (lib.decode code) key ≡ some text)
unfolding encipher decipher
decipher-encipher lib text key works bytes small long =
    let n = length text / 8 + 1 in
    let k8 = take 8 key in
    let buf = pkcs5_padding text in
    let lenb = length-pkcs5_padding text in
    let (mem', ran, written) =
      encrypted (lib.encrypt k8) n buf (replicate 1024 0)
        (λ k h.
          (works.cipher_block k8 (block k buf) (length-block n k buf lenb h) (
            unfold block in
            (All-take 8 (drop (k * 8) buf)
              (All-drop (k * 8) buf (pkcs5_padding-IsBytes text bytes))))).0)
        (omega (arith, length-replicate {A = ℕ} 1024 0)) in
    let sent = each_block (lib.encrypt k8) n buf in
    let (size, good, back) = decrypted lib text k8 works bytes in
    let decoded : lib.decode (lib.encode sent) ≡ sent = works.codec_inverse sent good in
    let same : length sent ≡ length buf = size ∙ sym lenb in
    (
      lib.encode sent,
      ground (arith, ran, written),
      rw decoded (omega (arith, size)),
      rw (decoded, back, same) (ground (arith, strip-padding text)),
    )

narrow-fits : (text : List ℕ) → length text < 2 ^ 31 → narrow text ≡ some text
unfolding narrow
narrow-fits text h =
    let n = length text % 2 ^ 32 in
    let same : n ≡ length text = mod-eq_of_lt (omega arith) in
    let fits : ltb n (2 ^ 31) ≡ true = lt→ltb n (2 ^ 31) (omega (arith, same)) in
    rw (fits, same) (ap some (take_all (length text) text (omega arith)))

-- If the block cipher and the codec invert each other, then Des_Decrypt gives back, under a key
-- of at least 8 bytes, every text of fewer than 1024 bytes that Des_Encrypt was given, of
-- whatever length and content; neither goes outside an array.
pub des_decrypt-des_encrypt :
    (lib : Library) (text key : List ℕ)
    → Works lib
    → IsBytes text
    → length text < 1024
    → 8 ≤ length key
    → (code : List ℕ) × (des_encrypt lib text key ≡ some code)
      × (des_decrypt lib code key ≡ some text)
unfolding des_encrypt des_decrypt
des_decrypt-des_encrypt lib text key works bytes small long =
    let (code, done, room, back) = decipher-encipher lib text key works bytes small long in
    (code, rw (narrow-fits text (omega arith)) done, rw (narrow-fits (lib.decode code) room) back)
