-- ===== src/Tests/Rand.antt =====
-- Tests of the model of `RandomImpl` of thirdpart/Logger/src/rand/impl/StdRandomImpl.h.
use cppserver.Prelude.{ℕ, zero, suc, ◌+◌, ◌≡◌, refl, true, false, [], ◌∷◌, arith}
use cppserver.Prelude.Int.{ℤ, pos, negsuc, ltb_ℤ}
use cppserver.Rand.{
  Range, Library, Generator, Random, generator, init_int, init, rand_int_mt, int_mt, int_re, run,
  values,
}
use cppserver.Rand.Ranges.{IsOrdered, IsWithin, IsUniform}
use cppserver.Rand.Sources.{uses, filter, other_draws}

-- An engine that counts: the first number is the lower end, the others the upper one.
abbrev pick {ℓ} : {A : Type ℓ} → ℕ → A → A → A
pick zero a b = a
pick (suc e) a b = b

abbrev draw : {A : Type 0} → Range A → ℕ → A × ℕ
draw range e = (pick e range.low range.high, e + 1)

abbrev pub counting : Library ℕ ℕ ℕ
counting = record {
  int_mt = draw;
  int_re = draw;
  int64_mt = draw;
  int64_re = draw;
  float_mt = draw;
  float_re = draw;
}

ltb_ℤ-same : (v : ℤ) → ltb_ℤ v v ≡ false
ltb_ℤ-same (pos n) = ground arith
ltb_ℤ-same (negsuc n) = ground arith

draw-IsWithin : (range : Range ℤ) (e : ℕ) → IsOrdered range → IsWithin range (draw range e).0
draw-IsWithin range zero o = (ltb_ℤ-same range.low, o)
draw-IsWithin range (suc e) o = (o, ltb_ℤ-same range.high)

pub counting-IsUniform : IsUniform counting
counting-IsUniform = record {
  int_mt_within = draw-IsWithin;
  int_re_within = draw-IsWithin;
  int64_mt_within = draw-IsWithin;
  int64_re_within = draw-IsWithin;
}

abbrev fresh : Generator ℕ ℕ
fresh = record { mt = 0; re = 0 }

abbrev pub start : Random ℕ ℕ ℕ
start = record {
  shared = fresh;
  inst = fresh;
  i_value = record { low = pos 5; high = pos 10 };
  i_value64 = record { low = pos 0; high = pos 9 };
  f_value = record { low = 0; high = 1 };
}

other_draws_example :
    (values counting
        (uses false)
        (int_mt false ∷ int_mt true ∷ int_re true ∷ int_mt false ∷ [])
        start
      ≡ values counting (uses false) (int_mt false ∷ int_mt false ∷ []) start)
    × (generator false
          (run counting (int_mt false ∷ int_mt true ∷ int_re true ∷ int_mt false ∷ []) start)
        ≡ generator false (run counting (int_mt false ∷ int_mt false ∷ []) start))
unfolding filter
other_draws_example =
    other_draws counting false (int_mt false ∷ int_mt true ∷ int_re true ∷ int_mt false ∷ []) start

-- The constructor with a range is the one without, then `betweenInt`.
fifth : (rand_int_mt counting false (init_int (pos 5) (pos 10) start.f_value fresh fresh)).0 ≡ pos 5
unfolding init_int init rand_int_mt
fifth = refl
