-- ===== src/Rand/Sources.antt =====
-- thirdpart/Logger/src/rand/impl/StdRandomImpl.h: the two generators of a RandomImpl do not
-- disturb one another.
use cppserver.Prelude.{
  ◌≡◌, refl, ap, ap₂, Bool, true, false, Bool-cases, inl, inr, List, [], ◌∷◌, if◌then◌else◌, arith,
}
use cppserver.Prelude.Int.{ℤ}
use cppserver.Rand.{
  Range, Library, Generator, Random, generator, put, between_int, between_int64, between_float,
  rand_int_mt, rand_int64_mt, rand_int_re, rand_int64_re, rand_float_mt, rand_float_re, Call,
  set_int, set_int64, set_float, int_mt, int64_mt, int_re, int64_re, float_mt, float_re, Value,
  whole, real, call, run, values,
}

abbrev pub same : Bool → Bool → Bool
same true b = b
same false true = false
same false false = true

same→eq : (a b : Bool) → same a b ≡ true → a ≡ b
same→eq true true h = refl
same→eq true false h = absurd (ground arith)
same→eq false true h = absurd (ground arith)
same→eq false false h = refl

-- The calls that set a range, and those that draw from the generator `bv` stands for.
abbrev pub uses : {F : Type 0} → Bool → Call F → Bool
uses bv (set_int a b) = true
uses bv (set_int64 a b) = true
uses bv (set_float a b) = true
uses bv (int_mt b) = same b bv
uses bv (int64_mt b) = same b bv
uses bv (int_re b) = same b bv
uses bv (int64_re b) = same b bv
uses bv (float_mt b) = same b bv
uses bv (float_re b) = same b bv

unfoldable pub filter : {A : Type 0} → (A → Bool) → List A → List A
filter p [] = []
filter p (x ∷ xs) = let rest = filter p xs in if p x then x ∷ rest else rest

-- Two states that a client of the generator `bv` cannot tell apart.
record Agree {Mt Re F : Type 0} (bv : Bool) (s t : Random Mt Re F) : Type 0 where
  gens : generator bv s ≡ generator bv t
  ints : s.i_value ≡ t.i_value
  ints64 : s.i_value64 ≡ t.i_value64
  floats : s.f_value ≡ t.f_value

module _ {Mt Re F : Type 0} (l : Library Mt Re F) where
  set-Agree :
      (bv : Bool) (x : Range ℤ) (s t : Random Mt Re F)
      → Agree bv s t
      → Agree bv (record s { i_value = x }) (record t { i_value = x })
  set-Agree true x s t a = record {
    gens = a.gens;
    ints = refl;
    ints64 = a.ints64;
    floats = a.floats;
  }
  set-Agree false x s t a = record {
    gens = a.gens;
    ints = refl;
    ints64 = a.ints64;
    floats = a.floats;
  }

  set64-Agree :
      (bv : Bool) (x : Range ℤ) (s t : Random Mt Re F)
      → Agree bv s t
      → Agree bv (record s { i_value64 = x }) (record t { i_value64 = x })
  set64-Agree true x s t a = record {
    gens = a.gens;
    ints = a.ints;
    ints64 = refl;
    floats = a.floats;
  }
  set64-Agree false x s t a = record {
    gens = a.gens;
    ints = a.ints;
    ints64 = refl;
    floats = a.floats;
  }

  set_float-Agree :
      (bv : Bool) (x : Range F) (s t : Random Mt Re F)
      → Agree bv s t
      → Agree bv (record s { f_value = x }) (record t { f_value = x })
  set_float-Agree true x s t a = record {
    gens = a.gens;
    ints = a.ints;
    ints64 = a.ints64;
    floats = refl;
  }
  set_float-Agree false x s t a = record {
    gens = a.gens;
    ints = a.ints;
    ints64 = a.ints64;
    floats = refl;
  }

  put-Agree :
      (bv : Bool) (g h : Generator Mt Re) (s t : Random Mt Re F)
      → Agree bv s t
      → g ≡ h
      → Agree bv (put bv g s) (put bv h t)
  put-Agree true g h s t a e = record {
    gens = e;
    ints = a.ints;
    ints64 = a.ints64;
    floats = a.floats;
  }
  put-Agree false g h s t a e = record {
    gens = e;
    ints = a.ints;
    ints64 = a.ints64;
    floats = a.floats;
  }

  put-other :
      (b bv : Bool) (g : Generator Mt Re) (s t : Random Mt Re F)
      → same b bv ≡ false
      → Agree bv s t
      → Agree bv (put b g s) t
  put-other true true g s t h a = absurd (ground arith)
  put-other true false g s t h a = record {
    gens = a.gens;
    ints = a.ints;
    ints64 = a.ints64;
    floats = a.floats;
  }
  put-other false true g s t h a = record {
    gens = a.gens;
    ints = a.ints;
    ints64 = a.ints64;
    floats = a.floats;
  }
  put-other false false g s t h a = absurd (ground arith)

  other_call :
      (bv : Bool) (c : Call F) (s t : Random Mt Re F)
      → uses bv c ≡ false
      → Agree bv s t
      → Agree bv (call l c s).1 t
  unfolding call rand_int_mt rand_int64_mt rand_int_re rand_int64_re rand_float_mt rand_float_re
  other_call bv (set_int _ _) s t h a = absurd (ground arith)
  other_call bv (set_int64 _ _) s t h a = absurd (ground arith)
  other_call bv (set_float _ _) s t h a = absurd (ground arith)
  other_call bv (int_mt b) s t h a = put-other b bv _ s t h a
  other_call bv (int64_mt b) s t h a = put-other b bv _ s t h a
  other_call bv (int_re b) s t h a = put-other b bv _ s t h a
  other_call bv (int64_re b) s t h a = put-other b bv _ s t h a
  other_call bv (float_mt b) s t h a = put-other b bv _ s t h a
  other_call bv (float_re b) s t h a = put-other b bv _ s t h a

  -- A draw sees a range and an engine of the generator, and leaves an engine there.
  draw-Agree :
      (bv : Bool) (s t : Random Mt Re F)
      (draw : Range ℤ → Range ℤ → Range F → Generator Mt Re → Value F × Generator Mt Re)
      → Agree bv s t
      → ((draw s.i_value s.i_value64 s.f_value (generator bv s)).0
          ≡ (draw t.i_value t.i_value64 t.f_value (generator bv t)).0)
        × Agree bv
            (put bv (draw s.i_value s.i_value64 s.f_value (generator bv s)).1 s)
            (put bv (draw t.i_value t.i_value64 t.f_value (generator bv t)).1 t)
  draw-Agree bv s t draw a =
      let e : draw s.i_value s.i_value64 s.f_value (generator bv s)
          ≡ draw t.i_value t.i_value64 t.f_value (generator bv t) =
        cc in
      (ap (λ d. d.0) e, put-Agree bv _ _ s t a (ap (λ d. d.1) e))

  same_call :
      (bv : Bool) (c : Call F) (s t : Random Mt Re F)
      → uses bv c ≡ true
      → Agree bv s t
      → ((call l c s).0 ≡ (call l c t).0) × Agree bv (call l c s).1 (call l c t).1
  unfolding call between_int between_int64 between_float rand_int_mt rand_int64_mt rand_int_re
      rand_int64_re rand_float_mt rand_float_re
  same_call bv (set_int x y) s t h a = (refl, set-Agree bv _ s t a)
  same_call bv (set_int64 x y) s t h a = (refl, set64-Agree bv _ s t a)
  same_call bv (set_float x y) s t h a = (refl, set_float-Agree bv _ s t a)
  same_call bv (int_mt b) s t h a = rw (same→eq b bv h) (
      draw-Agree bv s t (λ i j f g. let d = l.int_mt i g.mt in (whole d.0, record g { mt = d.1 }))
        a)
  same_call bv (int64_mt b) s t h a = rw (same→eq b bv h) (
      draw-Agree bv s t (λ i j f g. let d = l.int64_mt j g.mt in (whole d.0, record g { mt = d.1 }))
        a)
  same_call bv (int_re b) s t h a = rw (same→eq b bv h) (
      draw-Agree bv s t (λ i j f g. let d = l.int_re i g.re in (whole d.0, record g { re = d.1 }))
        a)
  same_call bv (int64_re b) s t h a = rw (same→eq b bv h) (
      draw-Agree bv s t (λ i j f g. let d = l.int64_re j g.re in (whole d.0, record g { re = d.1 }))
        a)
  same_call bv (float_mt b) s t h a = rw (same→eq b bv h) (
      draw-Agree bv s t (λ i j f g. let d = l.float_mt f g.mt in (real d.0, record g { mt = d.1 }))
        a)
  same_call bv (float_re b) s t h a = rw (same→eq b bv h) (
      draw-Agree bv s t (λ i j f g. let d = l.float_re f g.re in (real d.0, record g { re = d.1 }))
        a)

  agreeing :
      (bv : Bool) (cs : List (Call F)) (s t : Random Mt Re F)
      → Agree bv s t
      → (values l (uses bv) cs s ≡ values l (uses bv) (filter (uses bv) cs) t)
        × Agree bv (run l cs s) (run l (filter (uses bv) cs) t)
  unfolding values run filter
  agreeing bv [] s t a = (refl, a)
  agreeing bv (c ∷ cs) s t a = elim (Bool-cases (uses bv c)) [
    | inl y ↦
        let step = same_call bv c s t y a in
        let rest = agreeing bv cs (call l c s).1 (call l c t).1 step.1 in
        rw (y, y) (ap₂ (λ v vs. v ∷ vs) step.0 rest.0, rest.1)
    | inr n ↦ rw n (agreeing bv cs (call l c s).1 t (other_call bv c s t n a))
  ]

  -- Draws from the shared generator and from the own one do not disturb each other: of any calls,
  -- those that draw from one of the two give what they give, and leave it as they leave it, when
  -- the draws from the other are left out.
  pub other_draws :
      (bv : Bool) (cs : List (Call F)) (r : Random Mt Re F)
      → (values l (uses bv) cs r ≡ values l (uses bv) (filter (uses bv) cs) r)
        × (generator bv (run l cs r) ≡ generator bv (run l (filter (uses bv) cs) r))
  other_draws bv cs r =
      let e =
        agreeing bv cs r r (record { gens = refl; ints = refl; ints64 = refl; floats = refl }) in
      (e.0, e.1.gens)
