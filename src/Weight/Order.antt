-- ===== src/Weight/Order.antt =====
-- thirdpart/Logger/src/rand/impl/StdRandomImpl.h, `WeightImpl`: `shuffle` changes the order alone,
-- so the odds stay, and `recover` gives the weights back by their index.
use cppserver.Prelude.{
  ℕ, zero, suc, ◌+◌, ◌-◌, ◌≤◌, ◌<◌, ◌≡◌, refl, ◌≢◌, ◌==◌, List, [], ◌∷◌, some, if◌then◌else◌,
  length, get_elem?, set, arith, ◌∙◌, sym, ap, Option-cases, inl, inr, Bool-cases,
}
use mathlib.Core.Option.{some-injective}
use cppserver.Weight.{
  Item, Weights, sum_by, number, total, init, swap, shuffle_down, shuffle, write_back, recover,
}
use cppserver.Weight.Draw.{weight_at, draws, get_result-draws}

module _ (f : Item → ℕ) where
  sum_by-set :
      (xs : List Item) (i : ℕ) (a v : Item)
      → get_elem? xs i ≡ some a
      → sum_by f (set xs i v) + f a ≡ sum_by f xs + f v
  sum_by-set [] i a v h = cc
  sum_by-set (x ∷ xs) zero a v h = omega (arith, ap f (some-injective x a h))
  sum_by-set (x ∷ xs) (suc i) a v h = omega (arith, sum_by-set xs i a v h)

  swapped_elem :
      (xs : List Item) (i j : ℕ) (a b : Item)
      → get_elem? xs i ≡ some a
      → get_elem? xs j ≡ some b
      → get_elem? (set xs i b) j ≡ some b
  swapped_elem [] i j a b hi hj = cc
  swapped_elem (x ∷ xs) zero zero a b hi hj = refl
  swapped_elem (x ∷ xs) zero (suc j) a b hi hj = hj
  swapped_elem (x ∷ xs) (suc i) zero a b hi hj = hj
  swapped_elem (x ∷ xs) (suc i) (suc j) a b hi hj = swapped_elem xs i j a b hi hj

  pub sum_by-swap : (i j : ℕ) (xs : List Item) → sum_by f (swap i j xs) ≡ sum_by f xs
  unfolding swap
  sum_by-swap i j xs = elim (Option-cases (get_elem? xs i)) [
    | inl e ↦ rw (e, swap)
    | inr (a, e) ↦ elim (Option-cases (get_elem? xs j)) [
      | inl e' ↦ rw (e, swap, e')
      | inr (b, e') ↦
          rw (e, swap, e')
            (omega (
              arith,
              sum_by-set xs i a b e,
              sum_by-set (set xs i b) j b a (swapped_elem xs i j a b e e'),
            ))
    ]
  ]

  sum_by-shuffle_down :
      (draw : ℕ → ℕ) (i : ℕ) (xs : List Item) → sum_by f (shuffle_down draw i xs) ≡ sum_by f xs
  unfolding shuffle_down
  sum_by-shuffle_down draw zero xs = refl
  sum_by-shuffle_down draw (suc i) xs =
      sum_by-shuffle_down draw i (swap (suc i) (draw (suc i)) xs)
      ∙ sum_by-swap (suc i) (draw (suc i)) xs

  -- Whatever is added up over the items, shuffling keeps it.
  pub sum_by-shuffle :
      (draw : ℕ → ℕ) (w : Weights) → sum_by f (shuffle draw w).items ≡ sum_by f w.items
  unfolding shuffle
  sum_by-shuffle draw w = sum_by-shuffle_down draw (length w.items - 1) w.items

-- What the items of the index add up to.
abbrev selected : (Item → ℕ) → ℕ → Item → ℕ
selected g k it = if it.index == k then g it else 0

number_before :
    (g : Item → ℕ) (i k : ℕ) (ws : List ℕ) → k < i → sum_by (selected g k) (number i ws) ≡ 0
unfolding number
number_before g i k [] h = refl
number_before g i k (v ∷ ws) h = ground (arith, number_before g (suc i) k ws)

sum_by-number :
    (g : Item → ℕ) (i k n : ℕ) (ws : List ℕ) (v : ℕ)
    → get_elem? ws k ≡ some v
    → n ≡ i + k
    → sum_by (selected g n) (number i ws) ≡ g (record { weight = v; index = n })
unfolding number
sum_by-number g i k n [] v h e = cc
sum_by-number g i zero n (u ∷ ws) v h e =
    let same : u ≡ v = some-injective u v h in
    let here : i ≡ n = omega (arith, e) in
    let worth : g (record { weight = u; index = i }) ≡ g (record { weight = v; index = n }) =
      rw (same, here) refl in
    ground (arith, worth, number_before g (suc i) n ws)
sum_by-number g i (suc k) n (u ∷ ws) v h e = ground (arith, sum_by-number g (suc i) k n ws v h)

init-eq :
    (ws : List ℕ) (w : Weights)
    → init ws ≡ some w
    → (w.items ≡ number 0 ws) × (w.high ≡ total (number 0 ws)) × (1 ≤ w.high)
unfolding init
init-eq ws w e = ground arith

-- Shuffling keeps the odds: after init with weights that are not negative succeeds, which is that
-- their sum is at least 1 and an int holds it, of the draws 1, …, high an index answers exactly
-- as many as the weight given for it, in whatever order the items stand.
pub shuffle-odds :
    (ws : List ℕ) (w : Weights) (draw : ℕ → ℕ) (k v : ℕ)
    → init ws ≡ some w
    → get_elem? ws k ≡ some v
    → draws k w.high (shuffle draw w) ≡ v
unfolding total shuffle
shuffle-odds ws w draw k v e h =
    let made = init-eq ws w e in
    (get_result-draws (shuffle draw w)
        (made.1 ∙ sym (ap total made.0) ∙ sym (sum_by-shuffle (λ it. it.weight) draw w)) made.2).1
      k
    ∙ sum_by-shuffle (weight_at k) draw w
    ∙ ap (sum_by (weight_at k)) made.0
    ∙ sum_by-number (λ it. it.weight) 0 k k ws v h (omega arith)

length-set : (xs : List ℕ) (i v : ℕ) → length (set xs i v) ≡ length xs
length-set [] i v = refl
length-set (x ∷ xs) zero v = refl
length-set (x ∷ xs) (suc i) v = ap suc (length-set xs i v)

get_elem?-set_other : (xs : List ℕ) (i k v : ℕ) → i ≢ k → get_elem? (set xs i v) k ≡ get_elem? xs k
get_elem?-set_other [] i k v h = refl
get_elem?-set_other (x ∷ xs) zero zero v h = absurd (h refl)
get_elem?-set_other (x ∷ xs) zero (suc k) v h = refl
get_elem?-set_other (x ∷ xs) (suc i) zero v h = refl
get_elem?-set_other (x ∷ xs) (suc i) (suc k) v h = get_elem?-set_other xs i k v λ e. h (ap suc e)

get_elem?-set_self : (xs : List ℕ) (k v : ℕ) → k < length xs → get_elem? (set xs k v) k ≡ some v
get_elem?-set_self [] k v h = absurd (omega arith)
get_elem?-set_self (x ∷ xs) zero v h = refl
get_elem?-set_self (x ∷ xs) (suc k) v h = get_elem?-set_self xs k v (omega arith)

length-write_back : (items : List Item) (out : List ℕ) → length (write_back items out) ≡ length out
unfolding write_back
length-write_back [] out = refl
length-write_back (it ∷ items) out =
    length-write_back items (set out it.index it.weight) ∙ length-set out it.index it.weight

-- A slot that no item carries is left as it was.
write_back-absent :
    (items : List Item) (out : List ℕ) (k : ℕ)
    → sum_by (selected (λ it. 1) k) items ≡ 0
    → get_elem? (write_back items out) k ≡ get_elem? out k
unfolding write_back
write_back-absent [] out k h = refl
write_back-absent (it ∷ items) out k h =
    write_back-absent items (set out it.index it.weight) k (ground arith)
    ∙ get_elem?-set_other out it.index k it.weight (ground arith)

absent-weightless :
    (items : List Item) (k : ℕ)
    → sum_by (selected (λ it. 1) k) items ≡ 0
    → sum_by (weight_at k) items ≡ 0
absent-weightless [] k h = refl
absent-weightless (it ∷ items) k h = ground (arith, absent-weightless items k)

-- A slot that one item carries gets the weight of that item.
write_back-once :
    (items : List Item) (out : List ℕ) (k : ℕ)
    → k < length out
    → sum_by (selected (λ it. 1) k) items ≡ 1
    → get_elem? (write_back items out) k ≡ some (sum_by (weight_at k) items)
unfolding write_back
write_back-once [] out k inside h = absurd (omega arith)
write_back-once (it ∷ items) out k inside h = elim (Bool-cases (it.index == k)) [
  | inl here ↦
      let same : it.index ≡ k = ground (arith, here) in
      let later : sum_by (selected (λ it. 1) k) items ≡ 0 = ground (arith, here) in
      rw (here, write_back-absent items (set out it.index it.weight) k later, same)
        (get_elem?-set_self out k it.weight inside
          ∙ ap some (omega (arith, absent-weightless items k later)))
  | inr other ↦
      write_back-once items (set out it.index it.weight) k
        (omega (arith, length-set out it.index it.weight)) (ground (arith, other))
      ∙ ap some (ground (arith, other))
]

list_ext :
    (xs ys : List ℕ)
    → length xs ≡ length ys
    → ((k : ℕ) → k < length ys → get_elem? xs k ≡ get_elem? ys k)
    → xs ≡ ys
list_ext [] [] e h = refl
list_ext [] (y ∷ ys) e h = absurd (omega arith)
list_ext (x ∷ xs) [] e h = absurd (omega arith)
list_ext (x ∷ xs) (y ∷ ys) e h =
    let head : x ≡ y = some-injective x y (h 0 (omega arith)) in
    rw head (ap (◌∷◌ y) (list_ext xs ys (omega arith) λ k small. h (suc k) (omega arith)))

in_range : (ws : List ℕ) (k : ℕ) → k < length ws → (v : ℕ) × (get_elem? ws k ≡ some v)
in_range [] k h = absurd (omega arith)
in_range (w ∷ ws) zero h = (w, refl)
in_range (w ∷ ws) (suc k) h = in_range ws k (omega arith)

length-number : (i : ℕ) (ws : List ℕ) → length (number i ws) ≡ length ws
unfolding number
length-number i [] = refl
length-number i (w ∷ ws) = ap suc (length-number (suc i) ws)

count_all : (items : List Item) → sum_by (λ it. 1) items ≡ length items
count_all [] = refl
count_all (it ∷ items) = omega (arith, count_all items)

recovered :
    (ws out : List ℕ) (w : Weights) (draw : ℕ → ℕ) (k : ℕ)
    → w.items ≡ number 0 ws
    → length out ≡ length ws
    → k < length ws
    → get_elem? (write_back (shuffle draw w).items out) k ≡ get_elem? ws k
recovered ws out w draw k made h small =
    let there = in_range ws k small in
    let same_sum = λ (g : Item → ℕ).
      sum_by-shuffle (selected g k) draw w
      ∙ ap (sum_by (selected g k)) made
      ∙ sum_by-number g 0 k k ws there.0 there.1 (omega arith) in
    write_back-once (shuffle draw w).items out k (omega arith) (same_sum λ it. 1)
    ∙ ap some (same_sum λ it. it.weight)
    ∙ sym there.1

-- After init and any shuffle, recover into an array of as many weights writes those that init was
-- given back to their places.
pub recover-shuffle :
    (ws out : List ℕ) (w : Weights) (draw : ℕ → ℕ)
    → init ws ≡ some w
    → length out ≡ length ws
    → recover (shuffle draw w) out ≡ some ws
unfolding recover
recover-shuffle ws out w draw e h =
    let made = (init-eq ws w e).0 in
    let size : length (shuffle draw w).items ≡ length out =
      sym (count_all (shuffle draw w).items)
      ∙ sum_by-shuffle (λ it. 1) draw w
      ∙ ap (sum_by λ it. 1) made
      ∙ count_all (number 0 ws)
      ∙ length-number 0 ws
      ∙ sym h in
    let same : write_back (shuffle draw w).items out ≡ ws =
      list_ext (write_back (shuffle draw w).items out) ws
        (length-write_back (shuffle draw w).items out ∙ h)
        λ k small. recovered ws out w draw k made h small in
    ground (arith, size, same)
