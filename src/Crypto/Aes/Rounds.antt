-- ===== src/Crypto/Aes/Rounds.antt =====
-- thirdpart/https/aes.h: the loop of `AES_ECBEncrypt` over the blocks of 16 bytes.
use mathlib.Core.List.{append-nil, append_assoc}
use native.Mathlib.Nat.{mod-eq_of_lt}
use cppserver.Prelude.{
  some, ◌^◌, ℕ, zero, suc, ◌+◌, ◌-◌, ◌*◌, ◌/◌, ◌%◌, ◌≤◌, ◌<◌, ◌≡◌, refl, List, [], ◌∷◌, ◌++◌, ◌==◌,
  ltb, ltb→lt, lt→ltb, ap₂, Bool-cases, inl, inr, true, false, length, arith, take, drop, min,
  length-append, length-replicate, length-take, length-drop, if◌then◌else◌, ap, sym, ◌∙◌,
}
use cppserver.Crypto.Aes.{c_string, pad, string_to_hex, encrypt_loop}
use cppserver.Crypto.Aes.Padding.{IsText}
use cppserver.Crypto.Des.Blocks.{take_all, IsBytes, All-take, All-drop, drop-add}
use cppserver.Crypto.Aes.Blocks.{
  each16, padding, not_lt, not_le, take_prefix, drop_prefix, padded-IsBytes, length-padded,
}

-- What `StringToHex` makes of a text whose length an `int` holds.
unfoldable pub filled_block : List ℕ → List ℕ
filled_block src = pad (take (min 16 (length (c_string src))) src)

c_string-le : (src : List ℕ) → length (c_string src) ≤ length src
unfolding c_string
c_string-le [] = omega arith
c_string-le (b ∷ bs) = ground (arith, c_string-le bs)

pub string_to_hex-block :
    (src : List ℕ) → length src < 2 ^ 31 → string_to_hex src ≡ some (filled_block src)
unfolding string_to_hex filled_block
string_to_hex-block src h =
    let low : length (c_string src) < 2 ^ 31 = omega (arith, c_string-le src) in
    let same : length (c_string src) % 2 ^ 32 ≡ length (c_string src) =
      mod-eq_of_lt (omega arith) in
    let fits : ltb (length (c_string src)) (2 ^ 31) ≡ true =
      lt→ltb (length (c_string src)) (2 ^ 31) low in
    rw (same, fits) refl

IsText-drop : (n : ℕ) (text : List ℕ) → IsText text → IsText (drop n text)
IsText-drop zero text h = h
IsText-drop (suc n) [] h = tt
IsText-drop (suc n) (x ∷ xs) h = IsText-drop n xs h.1

c_string-text : (text : List ℕ) → IsText text → c_string text ≡ text
unfolding c_string
c_string-text [] h = refl
c_string-text (x ∷ xs) h = ground (arith, h.0, c_string-text xs h.1)

-- A block of a text is filled up as far as the text ends in it.
filled_block-text :
    (text : List ℕ) → IsText text → filled_block text ≡ take 16 (text ++ padding text)
unfolding filled_block pad
filled_block-text text h = elim (Bool-cases (ltb (length text) 16)) [
  | inl short ↦
      let low : length text < 16 = ltb→lt (length text) 16 short in
      let whole : take (min 16 (length (c_string text))) text ≡ text =
        rw (c_string-text text h) (take_all (min 16 (length text)) text (omega arith)) in
      let left : 16 - length text % 16 ≡ 16 - length text = omega arith in
      let size : length (text ++ padding text) ≤ 16 = omega (
        arith,
        length-append text (padding text),
        length-replicate (16 - length text % 16) (16 - length text % 16),
      ) in
      rw (take_all 16 (text ++ padding text) size, whole, short, left) refl
  | inr long ↦
      let big : 16 ≤ length text = not_lt (length text) 16 long in
      let whole : min 16 (length (c_string text)) ≡ 16 = rw (c_string-text text h) (omega arith) in
      let full : ltb (length (take 16 text)) 16 ≡ false =
        not_le (length (take 16 text)) 16 (omega (arith, length-take 16 text)) in
      rw (whole, full) (sym (take_prefix 16 text (padding text) big))
]

-- The rounds from a place on depend on what stands from there on alone.
pub text_rounds : (List ℕ → List ℕ) → ℕ → List ℕ → List ℕ
text_rounds cipher zero text = []
text_rounds cipher (suc fuel) text =
    let rest = text_rounds cipher fuel (drop 16 text) in
    if ltb 0 (length text) then cipher (filled_block text) ++ rest else []

pub encrypt_loop-rounds :
    (cipher : List ℕ → List ℕ) (fuel at : ℕ) (text : List ℕ)
    → length text < 2 ^ 31
    → encrypt_loop cipher (length text) fuel at text ≡ some (text_rounds cipher fuel (drop at text))
unfolding encrypt_loop text_rounds
encrypt_loop-rounds cipher zero at text h = refl
encrypt_loop-rounds cipher (suc fuel) at text h =
    let same : ltb 0 (length (drop at text)) ≡ ltb at (length text) =
      ground (arith, length-drop at text) in
    let small : length (drop at text) < 2 ^ 31 = omega (arith, length-drop at text) in
    elim (Bool-cases (ltb at (length text))) [
      | inl more ↦
          rw
            (
              encrypt_loop-rounds cipher fuel (at + 16) text h,
              same,
              more,
              string_to_hex-block (drop at text) small,
              drop-add at 16 text,
            )
            refl
      | inr over ↦ rw (same, over) refl
    ]

-- The block of padding that follows a text of whole blocks.
abbrev pub extra : (List ℕ → List ℕ) → List ℕ → List ℕ
extra cipher text = if length text % 16 == 0 then cipher (filled_block []) else []

same_rest : (text : List ℕ) → 16 ≤ length text → length (drop 16 text) % 16 ≡ length text % 16
same_rest text h = omega (arith, length-drop 16 text)

last_round :
    (cipher : List ℕ → List ℕ) (text : List ℕ)
    → IsText text
    → length text < 16
    → text_rounds cipher 1 text ++ extra cipher text ≡ each16 cipher 1 (text ++ padding text)
unfolding text_rounds each16
last_round cipher text h low = elim (Bool-cases (ltb 0 (length text))) [
  | inl some_text ↦
      let rest : (length text % 16 == 0) ≡ false = ground (arith, some_text) in
      rw (some_text, rest, filled_block-text text h)
        (append-nil (cipher (take 16 (text ++ padding text)) ++ []))
  | inr no_text ↦
      let empty : text ≡ [] = nothing text (not_lt 0 (length text) no_text) in
      rw empty (
        ap cipher (filled_block-text [] tt)
        ∙ sym (append-nil (cipher (take 16 ([] ++ padding [])))))
]
  where
    nothing : (xs : List ℕ) → length xs ≤ 0 → xs ≡ []
    nothing [] h = refl
    nothing (x ∷ xs) h = absurd (omega arith)

text_rounds-step :
    (cipher : List ℕ → List ℕ) (n : ℕ) (text : List ℕ)
    → 16 ≤ length text
    → text_rounds cipher (suc n) text
      ≡ cipher (filled_block text) ++ text_rounds cipher n (drop 16 text)
unfolding text_rounds
text_rounds-step cipher n text big =
    let some_text : ltb 0 (length text) ≡ true = lt→ltb 0 (length text) (omega arith) in
    rw some_text refl

first_round :
    (cipher : List ℕ → List ℕ) (n : ℕ) (text : List ℕ)
    → IsText text
    → 16 ≤ length text
    → text_rounds cipher n (drop 16 text) ++ extra cipher text
      ≡ each16 cipher n (drop 16 text ++ padding text)
    → text_rounds cipher (suc n) text ++ extra cipher text
      ≡ each16 cipher (suc n) (text ++ padding text)
unfolding each16
first_round cipher n text h big again =
    ap (λ r. r ++ extra cipher text) (text_rounds-step cipher n text big)
    ∙ append_assoc (cipher (filled_block text)) (text_rounds cipher n (drop 16 text))
        (extra cipher text)
    ∙ ap₂ (λ (a b : List ℕ). cipher a ++ b) (filled_block-text text h) again
    ∙ ap (λ r. cipher (take 16 (text ++ padding text)) ++ each16 cipher n r)
        (sym (drop_prefix 16 text (padding text) big))

-- The rounds, and the block of padding that may follow, are the cipher on the padded text.
pub rounds-each16 :
    (cipher : List ℕ → List ℕ) (n : ℕ) (text : List ℕ)
    → IsText text
    → length text / 16 ≡ n
    → text_rounds cipher (suc n) text ++ extra cipher text
      ≡ each16 cipher (suc n) (text ++ padding text)
rounds-each16 cipher zero text h count = last_round cipher text h (omega arith)
rounds-each16 cipher (suc n) text h count =
    let big : 16 ≤ length text = omega arith in
    let after = drop 16 text in
    let again : text_rounds cipher (suc n) after ++ extra cipher after
        ≡ each16 cipher (suc n) (after ++ padding after) =
      rounds-each16 cipher n after (IsText-drop 16 text h) (omega (arith, length-drop 16 text)) in
    first_round cipher (suc n) text h big (rw⁻¹ (same_rest text big) again)

length-round :
    (cipher : List ℕ → List ℕ) (text : List ℕ)
    → ((b : List ℕ) → length b ≡ 16 → IsBytes b → length (cipher b) ≡ 16)
    → IsText text
    → IsBytes text
    → length (cipher (filled_block text)) ≡ 16
length-round cipher text sixteen h bytes = rw (filled_block-text text h) (
    sixteen (take 16 (text ++ padding text))
      (omega (arith, length-take 16 (text ++ padding text), length-padded text))
      (All-take 16 (text ++ padding text) (padded-IsBytes text bytes)))

length-text_rounds :
    (cipher : List ℕ → List ℕ) (n : ℕ) (text : List ℕ)
    → ((b : List ℕ) → length b ≡ 16 → IsBytes b → length (cipher b) ≡ 16)
    → IsText text
    → IsBytes text
    → length text / 16 ≡ n
    → length (text_rounds cipher (suc n) text)
      ≡ (if length text % 16 == 0 then n * 16 else n * 16 + 16)
length-text_rounds cipher zero text sixteen h bytes count =
    unfold text_rounds in
    (elim (Bool-cases (ltb 0 (length text))) [
      | inl some_text ↦
          let rest : (length text % 16 == 0) ≡ false = ground (arith, some_text) in
          rw (some_text, rest)
            (omega (
              arith,
              length-append (cipher (filled_block text)) [],
              length-round cipher text sixteen h bytes,
            ))
      | inr no_text ↦
          let rest : (length text % 16 == 0) ≡ true = ground (arith, no_text) in
          rw (no_text, rest) refl
    ])
length-text_rounds cipher (suc n) text sixteen h bytes count =
    let big : 16 ≤ length text = omega arith in
    let after = drop 16 text in
    let rest =
      length-text_rounds cipher n after sixteen (IsText-drop 16 text h) (All-drop 16 text bytes)
        (omega (arith, length-drop 16 text)) in
    let split : length (text_rounds cipher (suc (suc n)) text)
        ≡ 16 + length (text_rounds cipher (suc n) after) =
      ap (λ (r : List ℕ). length r) (text_rounds-step cipher (suc n) text big)
      ∙ length-append (cipher (filled_block text)) (text_rounds cipher (suc n) after)
      ∙ ap (λ k. k + length (text_rounds cipher (suc n) after))
          (length-round cipher text sixteen h bytes) in
    ground (arith, split, rest, same_rest text big)

-- Whether the rounds leave the destination short.
pub rounds-short :
    (cipher : List ℕ → List ℕ) (n : ℕ) (text : List ℕ)
    → ((b : List ℕ) → length b ≡ 16 → IsBytes b → length (cipher b) ≡ 16)
    → IsText text
    → IsBytes text
    → length text / 16 ≡ n
    → ltb (length (text_rounds cipher (suc n) text)) (n * 16 + 16) ≡ (length text % 16 == 0)
rounds-short cipher n text sixteen h bytes count =
    ground (arith, length-text_rounds cipher n text sixteen h bytes count)
