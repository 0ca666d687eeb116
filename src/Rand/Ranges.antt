-- ===== src/Rand/Ranges.antt =====
-- thirdpart/Logger/src/rand/impl/StdRandomImpl.h, `betweenInt` and `betweenInt64`: whole numbers
-- stay in the range that was set last.
use cppserver.Prelude.{◌≡◌, refl, ap, ◌∙◌, Bool, true, false, List, [], ◌∷◌}
use cppserver.Prelude.Int.{ℤ, ltb_ℤ}
use cppserver.Rand.{
  Range, Library, Generator, Random, put, between_int, between_int64, between_float, rand_int_mt,
  rand_int64_mt, rand_int_re, rand_int64_re, rand_float_mt, rand_float_re, Call, set_int, set_int64,
  set_float, int_mt, int64_mt, int_re, int64_re, float_mt, float_re, call, run,
}

abbrev pub IsOrdered : Range ℤ → Type 0
IsOrdered range = ltb_ℤ range.high range.low ≡ false

abbrev pub IsWithin : Range ℤ → ℤ → Type 0
IsWithin range v = (ltb_ℤ v range.low ≡ false) × (ltb_ℤ range.high v ≡ false)

-- A uniform distribution draws from its range, which must not be empty.
pub record IsUniform {Mt Re F : Type 0} (l : Library Mt Re F) : Type 0 where
  pub int_mt_within :
      (range : Range ℤ) (e : Mt) → IsOrdered range → IsWithin range (l.int_mt range e).0
  pub int_re_within :
      (range : Range ℤ) (e : Re) → IsOrdered range → IsWithin range (l.int_re range e).0
  pub int64_mt_within :
      (range : Range ℤ) (e : Mt) → IsOrdered range → IsWithin range (l.int64_mt range e).0
  pub int64_re_within :
      (range : Range ℤ) (e : Re) → IsOrdered range → IsWithin range (l.int64_re range e).0

-- The range of `int`s after a call, and the one of `int64_t`s.
abbrev set_int_by : {F : Type 0} → Call F → Range ℤ → Range ℤ
set_int_by (set_int a b) range = record { low = a; high = b }
set_int_by _ range = range

abbrev set_int64_by : {F : Type 0} → Call F → Range ℤ → Range ℤ
set_int64_by (set_int64 a b) range = record { low = a; high = b }
set_int64_by _ range = range

unfoldable pub last_int : {F : Type 0} → List (Call F) → Range ℤ → Range ℤ
last_int [] range = range
last_int (c ∷ cs) range = last_int cs (set_int_by c range)

unfoldable pub last_int64 : {F : Type 0} → List (Call F) → Range ℤ → Range ℤ
last_int64 [] range = range
last_int64 (c ∷ cs) range = last_int64 cs (set_int64_by c range)

module _ {Mt Re F : Type 0} (l : Library Mt Re F) where
  pub put-ranges :
      (bv : Bool) (g : Generator Mt Re) (r : Random Mt Re F)
      → ((put bv g r).i_value ≡ r.i_value) × ((put bv g r).i_value64 ≡ r.i_value64)
  put-ranges true g r = (refl, refl)
  put-ranges false g r = (refl, refl)

  call-ranges :
      (c : Call F) (r : Random Mt Re F)
      → ((call l c r).1.i_value ≡ set_int_by c r.i_value)
        × ((call l c r).1.i_value64 ≡ set_int64_by c r.i_value64)
  unfolding call between_int between_int64 between_float rand_int_mt rand_int64_mt rand_int_re
      rand_int64_re rand_float_mt rand_float_re
  call-ranges (set_int a b) r = (refl, refl)
  call-ranges (set_int64 a b) r = (refl, refl)
  call-ranges (set_float a b) r = (refl, refl)
  call-ranges (int_mt bv) r = put-ranges bv _ r
  call-ranges (int64_mt bv) r = put-ranges bv _ r
  call-ranges (int_re bv) r = put-ranges bv _ r
  call-ranges (int64_re bv) r = put-ranges bv _ r
  call-ranges (float_mt bv) r = put-ranges bv _ r
  call-ranges (float_re bv) r = put-ranges bv _ r

  run-ranges :
      (cs : List (Call F)) (r : Random Mt Re F)
      → ((run l cs r).i_value ≡ last_int cs r.i_value)
        × ((run l cs r).i_value64 ≡ last_int64 cs r.i_value64)
  unfolding run last_int last_int64
  run-ranges [] r = (refl, refl)
  run-ranges (c ∷ cs) r =
      let rest = run-ranges cs (call l c r).1 in
      let e = call-ranges c r in (rest.0 ∙ ap (last_int cs) e.0, rest.1 ∙ ap (last_int64 cs) e.1)

  -- If a uniform distribution draws from its range: after any calls on a RandomImpl, randInt_mt
  -- and randInt_re give a number of the range that betweenInt set last, and randInt64_mt and
  -- randInt64_re one of the range that betweenInt64 set last, where these ranges are not empty.
  pub draws-IsWithin :
      (cs : List (Call F)) (r : Random Mt Re F) (bv : Bool)
      → IsUniform l
      → IsOrdered (last_int cs r.i_value)
      → IsOrdered (last_int64 cs r.i_value64)
      → IsWithin (last_int cs r.i_value) (rand_int_mt l bv (run l cs r)).0
        × IsWithin (last_int cs r.i_value) (rand_int_re l bv (run l cs r)).0
        × IsWithin (last_int64 cs r.i_value64) (rand_int64_mt l bv (run l cs r)).0
        × IsWithin (last_int64 cs r.i_value64) (rand_int64_re l bv (run l cs r)).0
  unfolding rand_int_mt rand_int64_mt rand_int_re rand_int64_re
  draws-IsWithin cs r bv u o o64 =
      let e = run-ranges cs r in
      rw (e.0, e.1)
        (
          u.int_mt_within (last_int cs r.i_value) _ o,
          u.int_re_within (last_int cs r.i_value) _ o,
          u.int64_mt_within (last_int64 cs r.i_value64) _ o64,
          u.int64_re_within (last_int64 cs r.i_value64) _ o64,
        )
