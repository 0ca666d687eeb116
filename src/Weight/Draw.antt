-- ===== src/Weight/Draw.antt =====
-- thirdpart/Logger/src/rand/impl/StdRandomImpl.h, `WeightImpl::getResult`: which index a draw
-- gives.
use cppserver.Prelude.{
  ℕ, zero, suc, ◌+◌, ◌-◌, ◌≤◌, ◌≡◌, refl, ◌==◌, List, [], ◌∷◌, Option, none, some, leb,
  if◌then◌else◌, length, arith, min, ◌∙◌, Bool-cases, inl, inr,
}
use cppserver.Weight.{Item, Weights, sum_by, total, walk, get_result}

unfoldable pub hit : ℕ → Option ℕ → ℕ
hit k none = 0
hit k (some i) = if i == k then 1 else 0

-- How many of the draws 1, …, n give the index.
unfoldable pub hits : ℕ → ℕ → List Item → ℕ
unfolding hit
hits k zero items = 0
hits k (suc n) items = hits k n items + hit k (walk (suc n) items)

-- The weights of the index, added up.
abbrev pub weight_at : ℕ → Item → ℕ
weight_at k it = if it.index == k then it.weight else 0

-- A draw in range gives an index: the loop never runs off its end.
walk-total :
    (c : ℕ) (items : List Item) → 1 ≤ c → c ≤ total items → (i : ℕ) × (walk c items ≡ some i)
unfolding walk total
walk-total c [] pos h = absurd (omega arith)
walk-total c (it ∷ items) pos h = elim (Bool-cases (leb c it.weight)) [
  | inl here ↦ (it.index, rw here)
  | inr on ↦ rw on (walk-total (c - it.weight) items (ground arith) (ground arith))
]

-- The draws up to the first weight give the first index, and the later ones those of the rest.
hits-cons :
    (k n : ℕ) (it : Item) (items : List Item)
    → hits k n (it ∷ items)
      ≡ (if it.index == k then min n it.weight else 0) + hits k (n - it.weight) items
unfolding hits walk
hits-cons k zero it items =
    let none_left : 0 - it.weight ≡ 0 = omega arith in rw none_left (ground arith)
hits-cons k (suc n) it items = elim (Bool-cases (leb (suc n) it.weight)) [
  | inl here ↦
      let before : n - it.weight ≡ 0 = ground arith in
      let now : suc n - it.weight ≡ 0 = ground arith in
      rw (here, now) (ground (arith, hits-cons k n it items, before))
  | inr on ↦
      let now : suc n - it.weight ≡ suc (n - it.weight) = ground arith in
      rw (on, now) (ground (arith, hits-cons k n it items))
]

hits-total :
    (k n : ℕ) (items : List Item) → n ≡ total items → hits k n items ≡ sum_by (weight_at k) items
unfolding total hits
hits-total k n [] e = rw e
hits-total k n (it ∷ items) e =
    ground (arith, hits-cons k n it items, hits-total k (n - it.weight) items)

length-pos : (items : List Item) → 1 ≤ total items → 1 ≤ length items
unfolding total
length-pos [] h = absurd (omega arith)
length-pos (it ∷ items) h = omega arith

get_result-walk : (r : ℕ) (w : Weights) → 1 ≤ total w.items → get_result r w ≡ walk r w.items
unfolding get_result
get_result-walk r w pos = ground (arith, length-pos w.items pos)

-- How many of the draws 1, …, n `getResult` answers with the index.
unfoldable pub draws : ℕ → ℕ → Weights → ℕ
unfolding hit
draws k zero w = 0
draws k (suc n) w = draws k n w + hit k (get_result (suc n) w)

draws-hits : (k n : ℕ) (w : Weights) → 1 ≤ total w.items → draws k n w ≡ hits k n w.items
unfolding draws hits
draws-hits k zero w pos = refl
draws-hits k (suc n) w pos = rw (draws-hits k n w pos, get_result-walk (suc n) w pos)

-- If the upper end of the range is the sum of the weights, and at least 1, then every draw in
-- range is answered, and an index answers as many of the draws as its items weigh.
pub get_result-draws :
    (w : Weights)
    → w.high ≡ total w.items
    → 1 ≤ w.high
    → ((r : ℕ) → 1 ≤ r → r ≤ w.high → (i : ℕ) × (get_result r w ≡ some i))
      × ((k : ℕ) → draws k w.high w ≡ sum_by (weight_at k) w.items)
get_result-draws w e pos = (
  (λ r low high. rw (get_result-walk r w some_weight) (walk-total r w.items low (omega arith))),
  λ k. draws-hits k w.high w some_weight ∙ hits-total k w.high w.items e,
)
  where
    some_weight : 1 ≤ total w.items
    some_weight = omega arith
