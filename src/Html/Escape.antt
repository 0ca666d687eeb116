-- ===== src/Html/Escape.antt =====
-- thirdpart/https/htmlcodec.h, `Encode`: each character becomes its mark, or stays.
use mathlib.Core.List.{append-nil, append_assoc}
use cppserver.Prelude.{
  ℕ, ◌≡◌, ◌≢◌, refl, sym, ap, ◌∙◌, ◌==◌, ==_iff, Bool, true, false, ◌&&◌, not, List, [], ◌∷◌, ◌++◌,
  map, if◌then◌else◌, arith, Bool-cases, inl, inr,
}
use cppserver.Html.{Replace, Code, codes, encode_by, encode}

-- The table as characters and the tails of their marks.
abbrev pub entry : ℕ × List ℕ → Code
entry (c, tail) = record { src = c ∷ []; dst = b'&' ∷ tail }

abbrev pub mark : List (ℕ × List ℕ) → ℕ → List ℕ
mark [] x = x ∷ []
mark ((c, tail) ∷ t) x = if x == c then b'&' ∷ tail else mark t x

-- The text with each character replaced by its mark.
unfoldable pub marks : List (ℕ × List ℕ) → List ℕ → List ℕ
marks t [] = []
marks t (x ∷ s) = mark t x ++ marks t s

-- What the table has to be for the loops to work: the characters differ, no mark holds a
-- character of a later row, a mark has its `&` at the front alone, and no two marks agree up to
-- the end of one.
abbrev pub fresh : ℕ → List (ℕ × List ℕ) → Bool
fresh x [] = true
fresh x ((c, tail) ∷ t) = not (x == c) && fresh x t

abbrev pub all_fresh : List ℕ → List (ℕ × List ℕ) → Bool
all_fresh [] t = true
all_fresh (x ∷ s) t = fresh x t && all_fresh s t

abbrev pub lacks : ℕ → List ℕ → Bool
lacks c [] = true
lacks c (x ∷ s) = not (x == c) && lacks c s

abbrev pub differ : List ℕ → List ℕ → Bool
differ [] s = false
differ (c ∷ p) [] = false
differ (c ∷ p) (d ∷ s) = if c == d then differ p s else true

abbrev pub apart : List ℕ → List (ℕ × List ℕ) → Bool
apart tail [] = true
apart tail ((c, other) ∷ t) = differ tail other && apart tail t

pub record IsRow (c : ℕ) (tail : List ℕ) (t : List (ℕ × List ℕ)) : Type 0 where
  pub new : fresh c t ≡ true
  pub no_amp : fresh b'&' t ≡ true
  pub kept : all_fresh tail t ≡ true
  pub front : lacks b'&' tail ≡ true
  pub unlike : apart tail t ≡ true

abbrev pub IsTable : List (ℕ × List ℕ) → Type 0
IsTable [] = Unit
IsTable ((c, tail) ∷ t) = IsRow c tail t × IsTable t

marks-append :
    (t : List (ℕ × List ℕ)) (xs ys : List ℕ) → marks t (xs ++ ys) ≡ marks t xs ++ marks t ys
unfolding marks
marks-append t [] ys = refl
marks-append t (x ∷ xs) ys =
    rw (marks-append t xs ys) (sym (append_assoc (mark t x) (marks t xs) (marks t ys)))

pub mark-fresh : (x : ℕ) (t : List (ℕ × List ℕ)) → fresh x t ≡ true → mark t x ≡ x ∷ []
mark-fresh x [] h = refl
mark-fresh x ((c, tail) ∷ t) h = ground (arith, mark-fresh x t)

marks-all_fresh : (s : List ℕ) (t : List (ℕ × List ℕ)) → all_fresh s t ≡ true → marks t s ≡ s
unfolding marks
marks-all_fresh [] t h = refl
marks-all_fresh (x ∷ s) t h = ground (arith, mark-fresh x t, marks-all_fresh s t)

pub marks-nil : (s : List ℕ) → marks [] s ≡ s
unfolding marks
marks-nil [] = refl
marks-nil (x ∷ s) = ap (◌∷◌ x) (marks-nil s)

-- A row's mark, or the character itself, under the rest of the table.
marks_if :
    (c : ℕ) (tail : List ℕ) (t : List (ℕ × List ℕ)) (x : ℕ)
    → IsRow c tail t
    → marks t (if x == c then b'&' ∷ tail else x ∷ []) ≡ mark ((c, tail) ∷ t) x
unfolding marks
marks_if c tail t x r = elim (Bool-cases (x == c)) [
  | inl e ↦ rw (e, mark-fresh b'&' t r.no_amp, marks-all_fresh tail t r.kept)
  | inr n ↦ rw (n, append-nil (mark t x))
]

module _ (b : Replace) where
  open b use {replace_all, at_end, at_match, at_other}

  -- One character replaced in front of a text.
  replace_char :
      (c : ℕ) (dst : List ℕ) (x : ℕ) (s : List ℕ)
      → replace_all (x ∷ s) (c ∷ []) dst
        ≡ (if x == c then dst else x ∷ []) ++ replace_all s (c ∷ []) dst
  replace_char c dst x s = elim (Bool-cases (x == c)) [
    | inl e ↦ rw e (rw ((==_iff x c).0 e) (at_match c [] dst s))
    | inr n ↦ rw n (at_other c [] dst x s (ground arith))
  ]

  -- One row of the table, then the rest of it.
  marks-replace :
      (c : ℕ) (tail : List ℕ) (t : List (ℕ × List ℕ)) (s : List ℕ)
      → IsRow c tail t
      → marks t (replace_all s (c ∷ []) (b'&' ∷ tail)) ≡ marks ((c, tail) ∷ t) s
  unfolding marks
  marks-replace c tail t [] r = rw (at_end c [] (b'&' ∷ tail))
  marks-replace c tail t (x ∷ s) r =
      rw
        (
          replace_char c (b'&' ∷ tail) x s,
          marks-append t (if x == c then b'&' ∷ tail else x ∷ [])
              (replace_all s (c ∷ []) (b'&' ∷ tail)),
          marks-replace c tail t s r,
        )
        (ap (λ u. u ++ marks ((c, tail) ∷ t) s) (marks_if c tail t x r))

  encode_by-eq-marks :
      (t : List (ℕ × List ℕ)) (s : List ℕ) → IsTable t → encode_by b (map entry t) s ≡ marks t s
  unfolding encode_by
  encode_by-eq-marks [] s h = sym (marks-nil s)
  encode_by-eq-marks ((c, tail) ∷ t) s h =
      encode_by-eq-marks t (replace_all s (c ∷ []) (b'&' ∷ tail)) h.1 ∙ marks-replace c tail t s h.0

abbrev head_of : List ℕ → ℕ
head_of [] = 0
head_of (c ∷ s) = c

abbrev tail_of : List ℕ → List ℕ
tail_of [] = []
tail_of (c ∷ s) = s

-- The source's table, as characters and tails.
unfoldable pub pairs : List (ℕ × List ℕ)
pairs = map (λ (e : Code). (head_of e.src, tail_of e.dst)) codes

pub codes-eq-entries : codes ≡ map entry pairs
unfolding codes pairs
codes-eq-entries = refl

is_table : List (ℕ × List ℕ) → Bool
is_table [] = true
is_table ((c, tail) ∷ t) =
    fresh c t
    && (fresh b'&' t && (all_fresh tail t && (lacks b'&' tail && (apart tail t && is_table t))))

is_table→IsTable : (t : List (ℕ × List ℕ)) → is_table t ≡ true → IsTable t
unfolding is_table
is_table→IsTable [] h = tt
is_table→IsTable ((c, tail) ∷ t) h = (
  record {
    new = ground arith;
    no_amp = ground arith;
    kept = ground arith;
    front = ground arith;
    unlike = ground arith;
  },
  is_table→IsTable t (ground arith),
)

pub pairs-IsTable : IsTable pairs
unfolding codes pairs is_table
pairs-IsTable = is_table→IsTable pairs refl

-- With such a replace_all, the passes of Encode over the whole text, one for each row of the
-- table, put in the place of each character its mark and leave what has none.
pub encode-eq-marks : (b : Replace) (s : List ℕ) → encode b s ≡ marks pairs s
unfolding encode
encode-eq-marks b s = rw codes-eq-entries (encode_by-eq-marks b pairs s pairs-IsTable)

abbrev tails_fresh : List (ℕ × List ℕ) → List (ℕ × List ℕ) → Bool
tails_fresh all [] = true
tails_fresh all ((c, tail) ∷ t) = all_fresh tail all && tails_fresh all t

lacks-append :
    (c : ℕ) (xs ys : List ℕ) → lacks c xs ≡ true → lacks c ys ≡ true → lacks c (xs ++ ys) ≡ true
lacks-append c [] ys h k = k
lacks-append c (x ∷ xs) ys h k = ground (arith, lacks-append c xs ys)

true-ne-false : true ≢ false
true-ne-false h = cc

fresh-ne :
    (c x : ℕ) (t : List (ℕ × List ℕ)) → fresh x t ≡ true → fresh c t ≡ false → (x == c) ≡ false
fresh-ne c x t h k = elim (Bool-cases (x == c)) [
  | inl e ↦ absurd (true-ne-false (sym h ∙ rw ((==_iff x c).0 e) k))
  | inr n ↦ n
]

lacks-all_fresh :
    (c : ℕ) (s : List ℕ) (t : List (ℕ × List ℕ))
    → fresh c t ≡ false
    → all_fresh s t ≡ true
    → lacks c s ≡ true
lacks-all_fresh c [] t f h = refl
lacks-all_fresh c (x ∷ s) t f h = ground (arith, fresh-ne c x t, lacks-all_fresh c s t)

mark-lacks :
    (all t : List (ℕ × List ℕ)) (c x : ℕ)
    → tails_fresh all t ≡ true
    → fresh c all ≡ false
    → c ≢ b'&'
    → (fresh x t ≡ true → (x == c) ≡ false)
    → lacks c (mark t x) ≡ true
mark-lacks all [] c x h f ne k = ground (arith, k refl)
mark-lacks all ((d, tail) ∷ t) c x h f ne k = elim (Bool-cases (x == d)) [
  | inl e ↦ ground (arith, lacks-all_fresh c tail all)
  | inr n ↦ rw n (mark-lacks all t c x (ground arith) f ne (λ e. k (rw (n, e))))
]

tails : tails_fresh pairs pairs ≡ true
unfolding codes pairs
tails = refl

marks-lacks :
    (c : ℕ) (s : List ℕ) → fresh c pairs ≡ false → c ≢ b'&' → lacks c (marks pairs s) ≡ true
unfolding marks
marks-lacks c [] f ne = refl
marks-lacks c (x ∷ s) f ne =
    lacks-append c (mark pairs x) (marks pairs s)
      (mark-lacks pairs pairs c x tails f ne (λ h. fresh-ne c x pairs h f)) (marks-lacks c s f ne)

-- With such a replace_all, the text that Encode gives holds no character of its table but &,
-- whatever text it was given.
pub encode-lacks :
    (b : Replace) (c : ℕ) (s : List ℕ)
    → fresh c pairs ≡ false
    → c ≢ b'&'
    → lacks c (encode b s) ≡ true
encode-lacks b c s f ne = rw (encode-eq-marks b s) (marks-lacks c s f ne)
