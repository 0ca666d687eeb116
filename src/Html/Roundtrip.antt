-- ===== src/Html/Roundtrip.antt =====
-- thirdpart/https/htmlcodec.h: `Decode` takes the text of `Encode` back.
use cppserver.Prelude.{
  ℕ, ◌≡◌, refl, ap, ◌∙◌, ◌==◌, ==_iff, true, false, List, [], ◌∷◌, ◌++◌, map, arith, Bool-cases,
  inl, inr,
}
use cppserver.Html.{Replace, starts_with, decode_by, encode, decode}
use cppserver.Html.Escape.{
  entry, mark, marks, lacks, differ, apart, IsRow, IsTable, mark-fresh, marks-nil, pairs,
  codes-eq-entries, pairs-IsTable, encode-eq-marks,
}

differ-starts_with : (p q rest : List ℕ) → differ p q ≡ true → starts_with p (q ++ rest) ≡ false
differ-starts_with [] q rest h = cc
differ-starts_with (c ∷ p) [] rest h = cc
differ-starts_with (c ∷ p) (d ∷ q) rest h = ground (arith, differ-starts_with p q rest)

beq_self : (c : ℕ) → (c == c) ≡ true
beq_self c = ground arith

module _ (b : Replace) (c : ℕ) (tail : List ℕ) where
  open b use {replace_all, at_end, at_match, at_other}

  -- What holds no `&` is passed over.
  replace_all_lacks :
      (xs rest : List ℕ)
      → lacks b'&' xs ≡ true
      → replace_all (xs ++ rest) (b'&' ∷ tail) (c ∷ [])
        ≡ xs ++ replace_all rest (b'&' ∷ tail) (c ∷ [])
  replace_all_lacks [] rest h = refl
  replace_all_lacks (x ∷ xs) rest h =
      at_other b'&' tail (c ∷ []) x (xs ++ rest) (ground arith)
      ∙ ap (◌∷◌ x) (replace_all_lacks xs rest (ground arith))

  -- So is the mark, or the character, that a later row gives.
  replace_all_mark :
      (t : List (ℕ × List ℕ)) (x : ℕ) (rest : List ℕ)
      → IsTable t
      → apart tail t ≡ true
      → (x == b'&') ≡ false
      → replace_all (mark t x ++ rest) (b'&' ∷ tail) (c ∷ [])
        ≡ mark t x ++ replace_all rest (b'&' ∷ tail) (c ∷ [])
  replace_all_mark [] x rest h a ne = replace_all_lacks (x ∷ []) rest (ground arith)
  replace_all_mark ((d, other) ∷ t) x rest h a ne = elim (Bool-cases (x == d)) [
    | inl e ↦ rw e (
        at_other b'&' tail (c ∷ []) b'&' (other ++ rest)
          (ground (arith, differ-starts_with tail other rest))
        ∙ ap (◌∷◌ b'&') (replace_all_lacks other rest (h.0.front)))
    | inr n ↦ rw n (replace_all_mark t x rest h.1 (ground arith) ne)
  ]

  -- One row of the table is undone.
  replace_all-marks :
      (t : List (ℕ × List ℕ)) (s : List ℕ)
      → IsRow c tail t
      → IsTable t
      → lacks b'&' s ≡ true
      → replace_all (marks ((c, tail) ∷ t) s) (b'&' ∷ tail) (c ∷ []) ≡ marks t s
  unfolding marks
  replace_all-marks t [] r h k = at_end b'&' tail (c ∷ [])
  replace_all-marks t (x ∷ s) r h k = elim (Bool-cases (x == c)) [
    | inl e ↦
        rw ((==_iff x c).0 e, beq_self c, mark-fresh c t r.new)
          (at_match b'&' tail (c ∷ []) (marks ((c, tail) ∷ t) s)
            ∙ ap (◌∷◌ c) (replace_all-marks t s r h (ground arith)))
    | inr n ↦ rw n (
        replace_all_mark t x (marks ((c, tail) ∷ t) s) h r.unlike (ground arith)
        ∙ ap (λ u. mark t x ++ u) (replace_all-marks t s r h (ground arith)))
  ]

decode_by-marks :
    (b : Replace) (t : List (ℕ × List ℕ)) (s : List ℕ)
    → IsTable t
    → lacks b'&' s ≡ true
    → decode_by b (map entry t) (marks t s) ≡ s
unfolding decode_by
decode_by-marks b [] s h k = marks-nil s
decode_by-marks b ((c, tail) ∷ t) s h k =
    ap (decode_by b (map entry t)) (replace_all-marks b c tail t s h.0 h.1 k)
    ∙ decode_by-marks b t s h.1 k

-- With any replace_all that goes from the left and does not read again what it put in, Decode
-- gives back each text without & that Encode was given.
pub decode-encode : (b : Replace) (s : List ℕ) → lacks b'&' s ≡ true → decode b (encode b s) ≡ s
unfolding decode
decode-encode b s k =
    rw (encode-eq-marks b s, codes-eq-entries) (decode_by-marks b pairs s pairs-IsTable k)
