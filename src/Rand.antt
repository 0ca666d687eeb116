-- ===== src/Rand.antt =====
-- thirdpart/Logger/src/rand/impl/StdRandomImpl.h, `GeneratorImpl` and `RandomImpl`: numbers drawn
-- by three distributions from the engines of an own generator or of the one that all share. The
-- engines and what a distribution draws from them are the standard library's: a parameter.
pub mod Ranges
pub mod Sources
use cppserver.Prelude.{◌-◌, ◌^◌, Bool, true, false, List, [], ◌∷◌, if◌then◌else◌}
use cppserver.Prelude.Int.{ℤ, pos}

-- `param_type`.
pub record Range (A : Type 0) : Type 0 where
  pub low : A
  pub high : A

-- `std::uniform_int_distribution<>`, `<int64_t>` and `std::uniform_real_distribution<float>`,
-- applied to each of the two engines: the number, and the engine after it.
pub record Library (Mt Re F : Type 0) : Type 0 where
  pub int_mt : Range ℤ → Mt → ℤ × Mt
  pub int_re : Range ℤ → Re → ℤ × Re
  pub int64_mt : Range ℤ → Mt → ℤ × Mt
  pub int64_re : Range ℤ → Re → ℤ × Re
  pub float_mt : Range F → Mt → F × Mt
  pub float_re : Range F → Re → F × Re

pub record Generator (Mt Re : Type 0) : Type 0 where
  pub mt : Mt
  pub re : Re

-- `shared` is `GeneratorImpl::instance()`, which outlives each RandomImpl.
pub record Random (Mt Re F : Type 0) : Type 0 where
  pub shared : Generator Mt Re
  pub inst : Generator Mt Re
  pub i_value : Range ℤ
  pub i_value64 : Range ℤ
  pub f_value : Range F

-- `bv ? GeneratorImpl::instance() : inst_`.
abbrev pub generator : {Mt Re F : Type 0} → Bool → Random Mt Re F → Generator Mt Re
generator true r = r.shared
generator false r = r.inst

abbrev pub put : {Mt Re F : Type 0} → Bool → Generator Mt Re → Random Mt Re F → Random Mt Re F
put true g r = record r { shared = g }
put false g r = record r { inst = g }

-- The ranges that the distributions begin with, and the constructors with a range.
unfoldable pub init :
    {Mt Re F : Type 0} → Range F → Generator Mt Re → Generator Mt Re → Random Mt Re F
init unit shared inst = record {
  shared = shared;
  inst = inst;
  i_value = record { low = pos 0; high = pos (2 ^ 31 - 1) };
  i_value64 = record { low = pos 0; high = pos (2 ^ 63 - 1) };
  f_value = unit;
}

unfoldable pub between_int : {Mt Re F : Type 0} → ℤ → ℤ → Random Mt Re F → Random Mt Re F
between_int a b r = record r { i_value = record { low = a; high = b } }

unfoldable pub between_int64 : {Mt Re F : Type 0} → ℤ → ℤ → Random Mt Re F → Random Mt Re F
between_int64 a b r = record r { i_value64 = record { low = a; high = b } }

unfoldable pub between_float : {Mt Re F : Type 0} → F → F → Random Mt Re F → Random Mt Re F
between_float a b r = record r { f_value = record { low = a; high = b } }

unfoldable pub init_int :
    {Mt Re F : Type 0} → ℤ → ℤ → Range F → Generator Mt Re → Generator Mt Re → Random Mt Re F
unfolding init
init_int a b unit shared inst = record (init unit shared inst) {
  i_value = record { low = a; high = b };
}

unfoldable pub init_int64 :
    {Mt Re F : Type 0} → ℤ → ℤ → Range F → Generator Mt Re → Generator Mt Re → Random Mt Re F
unfolding init
init_int64 a b unit shared inst = record (init unit shared inst) {
  i_value64 = record { low = a; high = b };
}

unfoldable pub init_float :
    {Mt Re F : Type 0} → F → F → Range F → Generator Mt Re → Generator Mt Re → Random Mt Re F
unfolding init
init_float a b unit shared inst = record (init unit shared inst) {
  f_value = record { low = a; high = b };
}

-- A draw from one engine of the generator that `bv` chooses.
module _ {Mt Re F : Type 0} (l : Library Mt Re F) where
  unfoldable pub rand_int_mt : Bool → Random Mt Re F → ℤ × Random Mt Re F
  rand_int_mt bv r =
      let g = generator bv r in
      let d = l.int_mt r.i_value g.mt in (d.0, put bv (record g { mt = d.1 }) r)

  unfoldable pub rand_int64_mt : Bool → Random Mt Re F → ℤ × Random Mt Re F
  rand_int64_mt bv r =
      let g = generator bv r in
      let d = l.int64_mt r.i_value64 g.mt in (d.0, put bv (record g { mt = d.1 }) r)

  unfoldable pub rand_int_re : Bool → Random Mt Re F → ℤ × Random Mt Re F
  rand_int_re bv r =
      let g = generator bv r in
      let d = l.int_re r.i_value g.re in (d.0, put bv (record g { re = d.1 }) r)

  unfoldable pub rand_int64_re : Bool → Random Mt Re F → ℤ × Random Mt Re F
  rand_int64_re bv r =
      let g = generator bv r in
      let d = l.int64_re r.i_value64 g.re in (d.0, put bv (record g { re = d.1 }) r)

  unfoldable pub rand_float_mt : Bool → Random Mt Re F → F × Random Mt Re F
  rand_float_mt bv r =
      let g = generator bv r in
      let d = l.float_mt r.f_value g.mt in (d.0, put bv (record g { mt = d.1 }) r)

  unfoldable pub rand_float_re : Bool → Random Mt Re F → F × Random Mt Re F
  rand_float_re bv r =
      let g = generator bv r in
      let d = l.float_re r.f_value g.re in (d.0, put bv (record g { re = d.1 }) r)

pub data Call (F : Type 0) : Type 0 where
  set_int : ℤ → ℤ → Call F
  set_int64 : ℤ → ℤ → Call F
  set_float : F → F → Call F
  int_mt : Bool → Call F
  int64_mt : Bool → Call F
  int_re : Bool → Call F
  int64_re : Bool → Call F
  float_mt : Bool → Call F
  float_re : Bool → Call F

pub data Value (F : Type 0) : Type 0 where
  unchanged : Value F
  whole : ℤ → Value F
  real : F → Value F

-- A call of a member function, with what it returns.
module _ {Mt Re F : Type 0} (l : Library Mt Re F) where
  unfoldable pub call : Call F → Random Mt Re F → Value F × Random Mt Re F
  call (set_int a b) r = (unchanged, between_int a b r)
  call (set_int64 a b) r = (unchanged, between_int64 a b r)
  call (set_float a b) r = (unchanged, between_float a b r)
  call (int_mt bv) r = let d = rand_int_mt l bv r in (whole d.0, d.1)
  call (int64_mt bv) r = let d = rand_int64_mt l bv r in (whole d.0, d.1)
  call (int_re bv) r = let d = rand_int_re l bv r in (whole d.0, d.1)
  call (int64_re bv) r = let d = rand_int64_re l bv r in (whole d.0, d.1)
  call (float_mt bv) r = let d = rand_float_mt l bv r in (real d.0, d.1)
  call (float_re bv) r = let d = rand_float_re l bv r in (real d.0, d.1)

  unfoldable pub run : List (Call F) → Random Mt Re F → Random Mt Re F
  unfolding call
  run [] r = r
  run (c ∷ cs) r = run cs (call c r).1

  -- What the calls that pass the test give, in their order.
  unfoldable pub values : (Call F → Bool) → List (Call F) → Random Mt Re F → List (Value F)
  unfolding call
  values p [] r = []
  values p (c ∷ cs) r =
      let rest = values p cs (call c r).1 in if p c then (call c r).0 ∷ rest else rest
