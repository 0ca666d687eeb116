-- ===== src/Tests/Html.antt =====
-- Tests of the model of thirdpart/https/htmlcodec.h.
use cppserver.Prelude.{
  ℕ, zero, suc, ◌-◌, ◌≡◌, refl, ap, true, false, List, [], ◌∷◌, ◌++◌, length, arith,
}
use cppserver.Html.{Replace, chars, starts_with, codes, encode_by, decode_by, encode, decode}
use cppserver.Html.Roundtrip.{decode-encode}

-- A search from the left; the first number is what is left of the last match.
replace_from : ℕ → List ℕ → List ℕ → List ℕ → List ℕ
replace_from k [] src dst = []
replace_from (suc k) (x ∷ s) src dst = replace_from k s src dst
replace_from zero (x ∷ s) src dst = elim (starts_with src (x ∷ s)) [
  | true ↦ dst ++ replace_from (length src - 1) s src dst
  | false ↦ x ∷ replace_from zero s src dst
]

starts_with-append : (p rest : List ℕ) → starts_with p (p ++ rest) ≡ true
starts_with-append [] rest = refl
starts_with-append (c ∷ p) rest = ground (arith, starts_with-append p rest)

replace_from_skip :
    (p rest src dst : List ℕ)
    → replace_from (length p) (p ++ rest) src dst ≡ replace_from zero rest src dst
unfolding replace_from
replace_from_skip [] rest src dst = refl
replace_from_skip (c ∷ p) rest src dst = replace_from_skip p rest src dst

suc-sub_one : (n : ℕ) → suc n - 1 ≡ n
suc-sub_one n = omega arith

replace_match :
    (c : ℕ) (p dst rest : List ℕ)
    → replace_from zero (c ∷ (p ++ rest)) (c ∷ p) dst ≡ dst ++ replace_from zero rest (c ∷ p) dst
unfolding replace_from
replace_match c p dst rest =
    rw (starts_with-append (c ∷ p) rest, replace_from, suc-sub_one (length p))
      (ap (λ u. dst ++ u) (replace_from_skip p rest (c ∷ p) dst))

replace_other :
    (c : ℕ) (p dst : List ℕ) (d : ℕ) (rest : List ℕ)
    → starts_with (c ∷ p) (d ∷ rest) ≡ false
    → replace_from zero (d ∷ rest) (c ∷ p) dst ≡ d ∷ replace_from zero rest (c ∷ p) dst
unfolding replace_from
replace_other c p dst d rest h = rw (h, replace_from)

abbrev replacing : Replace
unfolding replace_from
replacing = record {
  replace_all = λ s src dst. replace_from zero s src dst;
  at_end = λ c p dst. refl;
  at_match = replace_match;
  at_other = replace_other;
}

decode-encode_example : decode replacing (encode replacing (chars "<a 'b'>")) ≡ chars "<a 'b'>"
decode-encode_example = decode-encode replacing (chars "<a 'b'>") refl

encoded : encode replacing (chars "a<b&c") ≡ chars "a&lt;b&amp;c"
unfolding replace_from encode encode_by codes
encoded = refl

-- A text that holds a mark is not taken back: `&amp;` is undone first.
decoded_twice : decode replacing (encode replacing (chars "&lt;")) ≡ chars "<"
unfolding replace_from encode decode encode_by decode_by codes
decoded_twice = refl
