-- ===== src/Weight/Service.antt =====
-- thirdpart/Logger/src/rand/impl/StdRandomImpl.h, `WeightImpl` with its `RandomImpl`: the numbers
-- that `shuffle` and `getResult` draw come from the engines, one after the other. An index
-- outside the vectors, a sum that an `int` does not hold, a failed assertion and a `getResult`
-- without a `return` are `none`. The weights are taken not to be negative.
use cppserver.Prelude.{
  ℕ, zero, suc, ◌-◌, Bool, List, [], ◌∷◌, Option, none, some, ◌>>=◌, ◌>>◌, assert, leb, ltb, ◌^◌,
  length, get_elem?, set,
}
use cppserver.Prelude.Int.{ℤ, pos, negsuc, pos_part}
use cppserver.Rand.{Library, Random, between_int, rand_int_mt}
use cppserver.Weight.{Item, number, total, walk}

-- `WeightImpl`: `rand_`, `sum_`, and the two vectors.
pub record Drawer (Mt Re F : Type 0) : Type 0 where
  pub rand : Random Mt Re F
  pub sum : ℕ
  pub items : List Item

-- A position in a vector.
unfoldable pub position : ℤ → Option ℕ
position (pos n) = some n
position (negsuc n) = none

unfoldable pub swap_at : ℕ → ℕ → List Item → Option (List Item)
swap_at i j items = do a ← get_elem? items i; b ← get_elem? items j; some (set (set items i b) j a)

-- Draws are non-negative, or the first item is taken: `c -= weight_[i]; if (c <= 0)`.
unfoldable pub walk_from : ℤ → List Item → Option ℕ
walk_from r items = walk (pos_part r) items

module _ {Mt Re F : Type 0} (l : Library Mt Re F) where
  unfoldable pub begin : List ℕ → Drawer Mt Re F → Option (Drawer Mt Re F)
  begin weights d = do
    let items = number 0 weights
    assert (ltb (total items) (2 ^ 31))
    assert (leb 1 (total items))
    some (record {
      rand = between_int (pos 1) (pos (total items)) d.rand;
      sum = total items;
      items = items;
    })

  -- `for (int i = size - 1; i > 0; --i)`, with the shared engine.
  unfoldable pub shuffle_loop : ℕ → List Item → Mt → Option (List Item × Mt)
  unfolding position swap_at
  shuffle_loop zero items e = some (items, e)
  shuffle_loop (suc i) items e = do
    let d = l.int_mt (record { low = pos 0; high = pos (suc i) }) e
    j ← position d.0
    items' ← swap_at (suc i) j items
    shuffle_loop i items' d.1

  unfoldable pub shuffle_all : Drawer Mt Re F → Option (Drawer Mt Re F)
  unfolding shuffle_loop
  shuffle_all d = do
    r ← shuffle_loop (length d.items - 1) d.items d.rand.shared.mt
    some (record d {
      items = r.0;
      rand = record d.rand { shared = record d.rand.shared { mt = r.1 } };
    })

  unfoldable pub draw_index : Bool → Drawer Mt Re F → Option (ℕ × Drawer Mt Re F)
  unfolding walk_from
  draw_index bv d = do
    assert (leb 1 (length d.items))
    let r = rand_int_mt l bv d.rand
    k ← walk_from r.0 d.items
    some (k, record d { rand = r.1 })

pub data Ask : Type 0 where
  again : Ask
  result : Bool → Ask

-- Any calls of `shuffle` and `getResult`, with what `getResult` answers.
module _ {Mt Re F : Type 0} (l : Library Mt Re F) where
  unfoldable pub serve : List Ask → Drawer Mt Re F → Option (List ℕ × Drawer Mt Re F)
  unfolding shuffle_all draw_index
  serve [] d = some ([], d)
  serve (again ∷ asks) d = do d' ← shuffle_all l d; serve asks d'
  serve (result bv ∷ asks) d = do
    r ← draw_index l bv d
    rest ← serve asks r.1
    some (r.0 ∷ rest.0, rest.1)
