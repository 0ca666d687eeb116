-- ===== src/Crypto/Aes/Padding.antt =====
-- thirdpart/https/aes.h, `ClearPadding`: it ends a text at its padding.
use cppserver.Prelude.{
  ℕ, zero, suc, ◌+◌, ◌-◌, ◌%◌, ◌≤◌, ◌<◌, ◌≡◌, refl, List, [], ◌∷◌, ◌++◌, some, ◌==◌, leb, ltb, All,
  Bool-cases, inl, inr, true, false, length, arith, get_elem?, set, replicate, length-append,
  length-replicate, ap, ◌∙◌,
}
use cppserver.Crypto.Aes.{c_string, clear_one, clear_run, clear_padding}

-- Bytes that no padding has: more than 16.
abbrev pub IsText : List ℕ → Type 0
IsText bs = All (λ (b : ℕ). 16 < b) bs

text_elem :
    (text ys : List ℕ) (k : ℕ)
    → IsText text
    → k < length text
    → (b : ℕ) × (get_elem? (text ++ ys) k ≡ some b) × (16 < b)
text_elem [] ys k h small = absurd (omega arith)
text_elem (x ∷ xs) ys zero h small = (x, refl, h.0)
text_elem (x ∷ xs) ys (suc k) h small = text_elem xs ys k h.1 (omega arith)

padding_elem :
    (text : List ℕ) (n p k : ℕ)
    → length text ≤ k
    → k < length text + n
    → get_elem? (text ++ replicate n p) k ≡ some p
padding_elem [] zero p k low high = absurd (omega arith)
padding_elem [] (suc n) p zero low high = refl
padding_elem [] (suc n) p (suc k) low high = padding_elem [] n p k (omega arith) (omega arith)
padding_elem (x ∷ xs) n p zero low high = absurd (omega arith)
padding_elem (x ∷ xs) n p (suc k) low high = padding_elem xs n p k (omega arith) (omega arith)

-- A zero behind a text ends it.
c_string-set :
    (text : List ℕ) (n p : ℕ)
    → IsText text
    → 0 < n
    → c_string (set (text ++ replicate n p) (length text) 0) ≡ text
unfolding c_string
c_string-set [] zero p h some_padding = absurd (omega arith)
c_string-set [] (suc n) p h some_padding = refl
c_string-set (x ∷ xs) n p h some_padding = ground (arith, h.0, c_string-set xs n p h.1)

length-padded : (text : List ℕ) (n p : ℕ) → length (text ++ replicate n p) ≡ length text + n
length-padded text n p = omega (arith, length-append text (replicate n p), length-replicate n p)

-- The search for the first byte that is not the padding's stops behind the text.
clear_run-stops :
    (rounds i p : ℕ) (text : List ℕ)
    → IsText text
    → 0 < length text
    → i ≤ p
    → p ≤ 16
    → p + 1 ≤ i + rounds
    → clear_run rounds i p (text ++ replicate p p)
      ≡ some (set (text ++ replicate p p) (length text) 0)
unfolding clear_run
clear_run-stops zero i p text h full low small enough = absurd (omega arith)
clear_run-stops (suc rounds) i p text h full low small enough =
    let src = text ++ replicate p p in
    let size : length src ≡ length text + p = length-padded text p p in
    let fits : leb (i + 1) (length src) ≡ true = ground (arith, size) in
    elim (Bool-cases (ltb i p)) [
      | inl before ↦
          let same : get_elem? src (length src - 1 - i) ≡ some p =
            padding_elem text p p (length src - 1 - i) (ground (arith, size))
              (ground (arith, size)) in
          let again : (p == p) ≡ true = ground arith in
          rw (fits, same, again)
            (clear_run-stops rounds (suc i) p text h full (ground arith) small (omega arith))
      | inr here ↦
          let (b, found, big) =
            text_elem text (replicate p p) (length src - 1 - i) h (ground (arith, size)) in
          let differs : (b == p) ≡ false = ground (arith, big) in
          let end : length src - i ≡ length text = ground (arith, size) in
          rw (fits, found, differs, end) refl
    ]

-- One byte of padding is ended by the first search, more by the second.
clear_padding-set :
    (text : List ℕ)
    → IsText text
    → 0 < length text
    → let p = 16 - length text % 16 in
      clear_padding (text ++ replicate p p) ≡ some (set (text ++ replicate p p) (length text) 0)
unfolding clear_padding clear_one
clear_padding-set text h full =
    let p = 16 - length text % 16 in
    let src = text ++ replicate p p in
    let size : length src ≡ length text + p = length-padded text p p in
    let long : leb 2 (length src) ≡ true = ground (arith, size) in
    let last : get_elem? src (length src - 1) ≡ some p =
      padding_elem text p p (length src - 1) (omega (arith, size)) (omega (arith, size)) in
    elim (Bool-cases (p == 1)) [
      | inl single ↦
          let (b, found, big) =
            text_elem text (replicate p p) (length src - 2) h (ground (arith, size, single)) in
          let differs : (b == p) ≡ false = ground (arith, big) in
          let end : length src - 1 ≡ length text = ground (arith, size, single) in
          let one : p ≡ 1 = ground (arith, single) in
          rw (long, last, found, differs)
            (ap (λ q. some (clear_one 16 0 q src)) one ∙ ap (λ k. some (set src k 0)) end)
      | inr several ↦
          let before : get_elem? src (length src - 2) ≡ some p =
            padding_elem text p p (length src - 2) (ground (arith, size, several))
              (ground (arith, size, several)) in
          let again : (p == p) ≡ true = ground arith in
          rw (long, last, before, again)
            (clear_run-stops (16 + length src % 16 - 1) 2 p text h full (ground (arith, several))
              (omega arith) (omega arith))
    ]

-- ClearPadding ends a text at its padding: of a text of at least one byte, all bytes more than
-- 16, that is filled up to whole blocks, what it leaves is as a C string the text, and it goes
-- outside no array.
pub clear_padding-ends :
    (text : List ℕ)
    → IsText text
    → 0 < length text
    → (cleared : List ℕ) × (clear_padding
          (text ++ replicate (16 - length text % 16) (16 - length text % 16))
        ≡ some cleared)
      × (c_string cleared ≡ text)
clear_padding-ends text h full =
    let p = 16 - length text % 16 in
    (
      set (text ++ replicate p p) (length text) 0,
      clear_padding-set text h full,
      c_string-set text p p h (omega arith),
    )
