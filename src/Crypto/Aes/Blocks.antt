-- ===== src/Crypto/Aes/Blocks.antt =====
-- thirdpart/https/aes.h: the blocks of 16 bytes, and the loop of `AES_ECBDecrypt` over them.
use cppserver.Prelude.{
  ℕ, zero, suc, ◌+◌, ◌-◌, ◌*◌, ◌/◌, ◌%◌, ◌≤◌, ◌<◌, ◌≡◌, refl, List, [], ◌∷◌, ◌++◌, some, leb, ltb,
  lt→ltb, All-append, true, false, length, arith, replicate, take, drop, length-append,
  length-replicate, length-take, length-drop, take-append-drop, take-append_length,
  drop-append_length, ap, sym, ◌∙◌,
}
use cppserver.Crypto.Aes.{decrypt_loop}
use cppserver.Crypto.Des.Blocks.{IsBytes, All-take, All-drop, drop-add}

-- The cipher on each of the first `n` blocks.
unfoldable pub each16 : (List ℕ → List ℕ) → ℕ → List ℕ → List ℕ
each16 cipher zero buf = []
each16 cipher (suc n) buf = cipher (take 16 buf) ++ each16 cipher n (drop 16 buf)

abbrev pub padding : List ℕ → List ℕ
padding text = replicate (16 - length text % 16) (16 - length text % 16)

pub not_lt : (a b : ℕ) → ltb a b ≡ false → b ≤ a
not_lt a b h = ground arith

pub not_le : (a b : ℕ) → b ≤ a → ltb a b ≡ false
not_le a b h = ground arith

pub take_prefix : (n : ℕ) (xs ys : List ℕ) → n ≤ length xs → take n (xs ++ ys) ≡ take n xs
take_prefix zero xs ys h = refl
take_prefix (suc n) [] ys h = absurd (omega arith)
take_prefix (suc n) (x ∷ xs) ys h = ap (◌∷◌ x) (take_prefix n xs ys (omega arith))

pub drop_prefix : (n : ℕ) (xs ys : List ℕ) → n ≤ length xs → drop n (xs ++ ys) ≡ drop n xs ++ ys
drop_prefix zero xs ys h = refl
drop_prefix (suc n) [] ys h = absurd (omega arith)
drop_prefix (suc n) (x ∷ xs) ys h = drop_prefix n xs ys (omega arith)

padding-IsBytes : (n p : ℕ) → p < 256 → IsBytes (replicate n p)
padding-IsBytes zero p h = tt
padding-IsBytes (suc n) p h = (h, padding-IsBytes n p h)

pub padded-IsBytes : (text : List ℕ) → IsBytes text → IsBytes (text ++ padding text)
padded-IsBytes text h =
    All-append (λ (b : ℕ). b < 256) text (padding text) h
      (padding-IsBytes (16 - length text % 16) (16 - length text % 16) (omega arith))

pub length-padded : (text : List ℕ) → length (text ++ padding text) ≡ suc (length text / 16) * 16
length-padded text = omega (
  arith,
  length-append text (padding text),
  length-replicate (16 - length text % 16) (16 - length text % 16),
)

decrypt_loop-step :
    (cipher : List ℕ → List ℕ) (fuel at : ℕ) (bytes rest : List ℕ)
    → at + 16 ≤ length bytes
    → decrypt_loop cipher fuel (at + 16) bytes ≡ some rest
    → decrypt_loop cipher (suc fuel) at bytes ≡ some (cipher (take 16 (drop at bytes)) ++ rest)
unfolding decrypt_loop
decrypt_loop-step cipher fuel at bytes rest room e =
    let more : ltb at (length bytes) ≡ true = lt→ltb at (length bytes) (omega arith) in
    let inside : leb (at + 16) (length bytes) ≡ true = ground (arith, room) in
    rw (more, inside, e) refl

pub decrypt_loop-each16 :
    (cipher : List ℕ → List ℕ) (n at : ℕ) (bytes : List ℕ)
    → length bytes ≡ at + n * 16
    → decrypt_loop cipher (suc n) at bytes ≡ some (each16 cipher n (drop at bytes))
unfolding each16
decrypt_loop-each16 cipher zero at bytes e =
    unfold decrypt_loop in (rw (not_le at (length bytes) (omega arith)) refl)
decrypt_loop-each16 cipher (suc n) at bytes e =
    decrypt_loop-step cipher (suc n) at bytes (each16 cipher n (drop (at + 16) bytes)) (omega arith)
      (decrypt_loop-each16 cipher n (at + 16) bytes (omega arith))
    ∙ ap (λ r. some (cipher (take 16 (drop at bytes)) ++ each16 cipher n r))
        (sym (drop-add at 16 bytes))

pub each16-inverse :
    (encrypt decrypt : List ℕ → List ℕ) (n : ℕ) (buf : List ℕ)
    → ((b : List ℕ)
        → length b ≡ 16
        → IsBytes b
        → (length (encrypt b) ≡ 16) × IsBytes (encrypt b) × (decrypt (encrypt b) ≡ b))
    → length buf ≡ n * 16
    → IsBytes buf
    → (length (each16 encrypt n buf) ≡ n * 16)
      × IsBytes (each16 encrypt n buf)
      × (each16 decrypt n (each16 encrypt n buf) ≡ buf)
unfolding each16
each16-inverse encrypt decrypt zero [] works e h = (refl, tt, refl)
each16-inverse encrypt decrypt zero (x ∷ xs) works e h = absurd (omega arith)
each16-inverse encrypt decrypt (suc n) buf works e h =
    let b = take 16 buf in
    let (size16, good16, back16) =
      works b (omega (arith, length-take 16 buf)) (All-take 16 buf h) in
    let rest = each16 encrypt n (drop 16 buf) in
    let (size, good, back) =
      each16-inverse encrypt decrypt n (drop 16 buf) works (omega (arith, length-drop 16 buf))
        (All-drop 16 buf h) in
    (
      omega (arith, length-append (encrypt b) rest),
      All-append (λ (x : ℕ). x < 256) (encrypt b) rest good16 good,
      rw
          (
            take-append_length 16 (encrypt b) rest size16,
            drop-append_length 16 (encrypt b) rest size16,
            back16,
            back,
          )
          (take-append-drop 16 buf),
    )
