-- ===== src/Weight.antt =====
-- thirdpart/Logger/src/rand/impl/StdRandomImpl.h, `WeightImpl`: an index drawn by weights. The
-- weights are `int`s, taken not to be negative, so they are natural numbers here; a sum that an `int`
-- does not hold is undefined, which is `none`. What the standard library's generator draws is an argument.
pub mod Draw
pub mod Order
pub mod Service
pub mod Answers
use cppserver.Prelude.{
  ℕ, zero, suc, ◌+◌, ◌-◌, Bool, List, [], ◌∷◌, Option, none, some, assert, ◌>>=◌, ◌>>◌, leb, ltb,
  ◌^◌, if◌then◌else◌, length, get_elem?, set,
}

-- `weight_[i]` beside `indxId_[i]`: the two vectors have one length and are changed together.
pub record Item : Type 0 where
  pub weight : ℕ
  pub index : ℕ

-- `high` is the upper end of the range of `rand_`, whose lower end is 1.
pub record Weights : Type 0 where
  pub high : ℕ
  pub sum : ℕ
  pub items : List Item

unfoldable pub number : ℕ → List ℕ → List Item
number i [] = []
number i (w ∷ ws) = record { weight = w; index = i } ∷ number (suc i) ws

abbrev pub sum_by : (Item → ℕ) → List Item → ℕ
sum_by f [] = 0
sum_by f (it ∷ items) = f it + sum_by f items

unfoldable pub total : List Item → ℕ
total = sum_by λ it. it.weight

unfoldable pub init : List ℕ → Option Weights
unfolding number total
init weights = do
  let items = number 0 weights
  assert (ltb (total items) (2 ^ 31))
  assert (leb 1 (total items))
  some (record { high = total items; sum = total items; items = items })

-- `std::swap` at two positions of both vectors. The distribution keeps them in range.
unfoldable pub swap : ℕ → ℕ → List Item → List Item
swap i j items = elim (get_elem? items i) [
  | none ↦ items
  | some a ↦ elim (get_elem? items j) [ none ↦ items | some b ↦ set (set items i b) j a ]
]

-- `for (int i = size - 1; i > 0; --i) { int j = d(…); … }`: `draw i` is what the distribution on
-- [0, i] gives in the round of `i`.
unfoldable pub shuffle_down : (ℕ → ℕ) → ℕ → List Item → List Item
unfolding swap
shuffle_down draw zero items = items
shuffle_down draw (suc i) items = shuffle_down draw i (swap (suc i) (draw (suc i)) items)

unfoldable pub shuffle : (ℕ → ℕ) → Weights → Weights
shuffle draw w = record w { items = shuffle_down draw (length w.items - 1) w.items }

-- `c -= weight_[i]; if (c <= 0) return indxId_[i];`. A loop that ends without a `return` is `none`.
unfoldable pub walk : ℕ → List Item → Option ℕ
walk c [] = none
walk c (it ∷ items) = if leb c it.weight then some it.index else walk (c - it.weight) items

-- `r` is what `rand_.randInt_mt` draws from [1, high].
unfoldable pub get_result : ℕ → Weights → Option ℕ
get_result r w = do assert (leb 1 (length w.items)); walk r w.items

unfoldable pub write_back : List Item → List ℕ → List ℕ
write_back [] out = out
write_back (it ∷ items) out = write_back items (set out it.index it.weight)

unfoldable pub recover : Weights → List ℕ → Option (List ℕ)
unfolding write_back
recover w out = do assert (leb (length w.items) (length out)); some (write_back w.items out)
