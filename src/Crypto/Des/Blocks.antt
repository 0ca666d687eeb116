-- ===== src/Crypto/Des/Blocks.antt =====
-- thirdpart/https/aes.h: the loops over the blocks.
use mathlib.Core.List.{append-nil, append_assoc}
use cppserver.Prelude.{
  ℕ, zero, suc, ◌+◌, ◌*◌, ◌≤◌, ◌<◌, ◌≡◌, refl, sym, ap, ◌∙◌, List, [], ◌∷◌, ◌++◌, none, some,
  length, take, drop, All, arith, length-append, inl, inr, Bool-cases, leb, length-take,
  length-drop, take-append-drop, All-append, take-append_length, drop-append_length,
}
use cppserver.Crypto.Des.{Library, write, block, encrypt_from, decrypt_from}

abbrev pub IsBytes : List ℕ → Type 0
IsBytes bs = All (λ (b : ℕ). b < 256) bs

-- What the sources rely on: a block of 8 bytes is encrypted to one that decrypts to it, and the
-- codec gives back what it was given.
pub record Works (lib : Library) : Type 0 where
  pub cipher_block :
      (key b : List ℕ)
      → length b ≡ 8
      → IsBytes b
      → (length (lib.encrypt key b) ≡ 8) × IsBytes (lib.encrypt key b)
  pub cipher_inverse :
      (key b : List ℕ) → length b ≡ 8 → IsBytes b → lib.decrypt key (lib.encrypt key b) ≡ b
  pub codec_inverse : (bs : List ℕ) → IsBytes bs → lib.decode (lib.encode bs) ≡ bs

-- The cipher on each of the first `n` blocks.
unfoldable pub each_block : (List ℕ → List ℕ) → ℕ → List ℕ → List ℕ
each_block cipher zero buf = []
each_block cipher (suc n) buf = cipher (take 8 buf) ++ each_block cipher n (drop 8 buf)

same_drop : (m n : ℕ) (xs : List ℕ) → m ≡ n → drop m xs ≡ drop n xs
same_drop m n xs e = ap (λ k. drop k xs) e

drop-nil : (n : ℕ) → drop {A = ℕ} n [] ≡ []
drop-nil zero = refl
drop-nil (suc n) = refl

pub drop-add : (m n : ℕ) (xs : List ℕ) → drop n (drop m xs) ≡ drop (m + n) xs
drop-add zero n xs = same_drop n (0 + n) xs (omega arith)
drop-add (suc m) zero [] = sym (drop-nil (suc m + 0))
drop-add (suc m) (suc n) [] = sym (drop-nil (suc m + suc n))
drop-add (suc m) n (x ∷ xs) =
    drop-add m n xs ∙ same_drop (suc (m + n)) (suc m + n) (x ∷ xs) (omega arith)

pub All-take : (n : ℕ) (xs : List ℕ) → IsBytes xs → IsBytes (take n xs)
All-take zero xs h = tt
All-take (suc n) [] h = tt
All-take (suc n) (x ∷ xs) h = (h.0, All-take n xs h.1)

pub All-drop : (n : ℕ) (xs : List ℕ) → IsBytes xs → IsBytes (drop n xs)
All-drop zero xs h = h
All-drop (suc n) [] h = tt
All-drop (suc n) (x ∷ xs) h = All-drop n xs h.1

next_block :
    (cipher : List ℕ → List ℕ) (n i : ℕ) (buf : List ℕ)
    → each_block cipher (suc n) (drop (i * 8) buf)
      ≡ cipher (block i buf) ++ each_block cipher n (drop (suc i * 8) buf)
unfolding each_block block
next_block cipher n i buf =
    ap (λ rest. cipher (block i buf) ++ each_block cipher n rest)
      (drop-add (i * 8) 8 buf ∙ same_drop (i * 8 + 8) (suc i * 8) buf (omega arith))

pub decrypt_from-each :
    (cipher : List ℕ → List ℕ) (n i : ℕ) (buf done : List ℕ)
    → decrypt_from cipher n i buf done ≡ done ++ each_block cipher n (drop (i * 8) buf)
unfolding decrypt_from each_block
decrypt_from-each cipher zero i buf done = sym (append-nil done)
decrypt_from-each cipher (suc n) i buf done =
    decrypt_from-each cipher n (suc i) buf (done ++ cipher (block i buf))
    ∙ append_assoc done (cipher (block i buf)) (each_block cipher n (drop (suc i * 8) buf))
    ∙ ap (λ rest. done ++ rest) (sym (next_block cipher n i buf))

pub length-block : (n i : ℕ) (buf : List ℕ) → length buf ≡ n * 8 → i < n → length (block i buf) ≡ 8
unfolding block
length-block n i buf e h = omega (arith, length-take 8 (drop (i * 8) buf), length-drop (i * 8) buf)

-- The rounds write the blocks behind those that are there.
pub encrypt_from-each :
    (cipher : List ℕ → List ℕ) (n i : ℕ) (buf mem : List ℕ)
    → ((k : ℕ) → k < i + n → length (cipher (block k buf)) ≡ 8)
    → (i + n) * 8 ≤ length mem
    → (mem' : List ℕ) × (encrypt_from cipher n i buf mem ≡ some mem')
      × (take ((i + n) * 8) mem' ≡ take (i * 8) mem ++ each_block cipher n (drop (i * 8) buf))
unfolding encrypt_from write each_block
encrypt_from-each cipher zero i buf mem eights room = (
  mem,
  refl,
  ap (λ k. take (k * 8) mem) {x = i + 0} (omega arith) ∙ sym (append-nil (take (i * 8) mem)),
)
encrypt_from-each cipher (suc n) i buf mem eights room =
    let c = cipher (block i buf) in
    let eight : length c ≡ 8 = eights i (omega arith) in
    let mem1 = take (i * 8) mem ++ c ++ drop (i * 8 + length c) mem in
    let front : length (take (i * 8) mem ++ c) ≡ suc i * 8 =
      omega (arith, length-append (take (i * 8) mem) c, length-take (i * 8) mem) in
    let size : length mem1 ≡ length mem = omega (
      arith,
      length-append (take (i * 8) mem ++ c) (drop (i * 8 + length c) mem),
      length-drop (i * 8 + length c) mem,
    ) in
    let (mem', ran, written) =
      encrypt_from-each cipher n (suc i) buf mem1 (λ k h. eights k (omega arith)) (omega arith) in
    (
      mem',
      ground (arith, eight, ran),
      ap (λ k. take (k * 8) mem') {x = i + suc n} {y = suc i + n} (omega arith)
          ∙ written
          ∙ ap (λ front_part. front_part ++ each_block cipher n (drop (suc i * 8) buf))
              (take-append_length (suc i * 8) (take (i * 8) mem ++ c) (drop (i * 8 + length c) mem)
                front)
          ∙ append_assoc (take (i * 8) mem) c (each_block cipher n (drop (suc i * 8) buf))
          ∙ ap (λ rest. take (i * 8) mem ++ rest) (sym (next_block cipher n i buf)),
    )

module _ (lib : Library) (works : Works lib) (key : List ℕ) where
  pub encrypted-IsBytes :
      (n : ℕ) (buf : List ℕ)
      → length buf ≡ n * 8
      → IsBytes buf
      → (length (each_block (lib.encrypt key) n buf) ≡ n * 8)
        × IsBytes (each_block (lib.encrypt key) n buf)
        × (each_block (lib.decrypt key) n (each_block (lib.encrypt key) n buf) ≡ buf)
  unfolding each_block
  encrypted-IsBytes zero [] e h = (refl, tt, refl)
  encrypted-IsBytes zero (x ∷ xs) e h = absurd (omega arith)
  encrypted-IsBytes (suc n) buf e h =
      let b = take 8 buf in
      let bytes : IsBytes b = All-take 8 buf h in
      let eight : length b ≡ 8 = omega (arith, length-take 8 buf) in
      let left : length (drop 8 buf) ≡ n * 8 = omega (arith, length-drop 8 buf) in
      let (size, good, back) = encrypted-IsBytes n (drop 8 buf) left (All-drop 8 buf h) in
      let (size8, good8) = works.cipher_block key b eight bytes in
      let c = lib.encrypt key b in
      let rest = each_block (lib.encrypt key) n (drop 8 buf) in
      (
        omega (arith, length-append c rest),
        All-append (λ (x : ℕ). x < 256) c rest good8 good,
        rw
            (
              take-append_length 8 c rest size8,
              drop-append_length 8 c rest size8,
              back,
              works.cipher_inverse key b eight bytes,
            )
            (take-append-drop 8 buf),
      )

pub encrypt_from-none :
    (cipher : List ℕ → List ℕ) (n i : ℕ) (buf mem : List ℕ)
    → ((k : ℕ) → k < i + n → length (cipher (block k buf)) ≡ 8)
    → i * 8 ≤ length mem
    → length mem < (i + n) * 8
    → encrypt_from cipher n i buf mem ≡ none
unfolding encrypt_from write
encrypt_from-none cipher zero i buf mem eights start room = absurd (omega arith)
encrypt_from-none cipher (suc n) i buf mem eights start room =
    let c = cipher (block i buf) in
    let eight : length c ≡ 8 = eights i (omega arith) in
    let mem1 = take (i * 8) mem ++ c ++ drop (i * 8 + length c) mem in
    elim (Bool-cases (leb (i * 8 + length c) (length mem))) [
      | inr over ↦ rw over refl
      | inl fits ↦
          let size : length mem1 ≡ length mem = ground (
            arith,
            fits,
            length-append (take (i * 8) mem ++ c) (drop (i * 8 + length c) mem),
            length-append (take (i * 8) mem) c,
            length-take (i * 8) mem,
            length-drop (i * 8 + length c) mem,
          ) in
          rw fits (
            encrypt_from-none cipher n (suc i) buf mem1 (λ k h. eights k (omega arith))
              (ground (arith, fits)) (omega (arith, size)))
    ]

pub take_all : (n : ℕ) (xs : List ℕ) → length xs ≤ n → take n xs ≡ xs
take_all zero [] h = refl
take_all zero (x ∷ xs) h = absurd (omega arith)
take_all (suc n) [] h = refl
take_all (suc n) (x ∷ xs) h = ap (◌∷◌ x) (take_all n xs (omega arith))
