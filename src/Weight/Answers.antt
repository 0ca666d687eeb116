-- ===== src/Weight/Answers.antt =====
-- thirdpart/Logger/src/rand/impl/StdRandomImpl.h, `WeightImpl` with its `RandomImpl`: `getResult`
-- always ends by its `return`, and its answer can be drawn.
use mathlib.Core.Option.{some-injective}
use cppserver.Prelude.{
  ℕ, zero, suc, ◌+◌, ◌-◌, ◌≤◌, ◌<◌, ◌≡◌, refl, sym, ap, ◌∙◌, subst, Bool, true, List, [], ◌∷◌, some,
  ◌>>=◌, leb, ltb, lt→ltb, ◌^◌, length, get_elem?, set, All, arith, Bool-cases, inl, inr,
}
use cppserver.Prelude.Int.{ℤ, pos, negsuc}
use cppserver.Rand.{Library, generator, between_int, rand_int_mt}
use cppserver.Rand.Ranges.{IsOrdered, IsUniform, IsWithin, put-ranges}
use cppserver.Weight.{Item, number, total, swap, walk}
use cppserver.Weight.Order.{sum_by-swap}
use cppserver.Weight.Service.{
  Drawer, position, swap_at, walk_from, begin, shuffle_loop, shuffle_all, draw_index, Ask, again,
  result, serve,
}

All-get_elem? {κ} :
    {A : Type 0} (P : A → Type κ) (xs : List A) (i : ℕ) (a : A)
    → All P xs
    → get_elem? xs i ≡ some a
    → P a
All-get_elem? P [] i a h e = absurd (cc)
All-get_elem? P (x ∷ xs) zero a h e = subst P (some-injective x a e) h.0
All-get_elem? P (x ∷ xs) (suc i) a h e = All-get_elem? P xs i a h.1 e

All-set {κ} :
    {A : Type 0} (P : A → Type κ) (xs : List A) (i : ℕ) (a : A)
    → All P xs
    → P a
    → All P (set xs i a)
All-set P [] i a h p = h
All-set P (x ∷ xs) zero a h p = (p, h.1)
All-set P (x ∷ xs) (suc i) a h p = (h.0, All-set P xs i a h.1 p)

length-set {ℓ} : {A : Type ℓ} (xs : List A) (i : ℕ) (a : A) → length (set xs i a) ≡ length xs
length-set [] i a = refl
length-set (x ∷ xs) zero a = refl
length-set (x ∷ xs) (suc i) a = ap suc (length-set xs i a)

inside {ℓ} :
    {A : Type ℓ} (xs : List A) (i : ℕ) → i < length xs → (a : A) × (get_elem? xs i ≡ some a)
inside [] i h = absurd (omega arith)
inside (x ∷ xs) zero h = (x, refl)
inside (x ∷ xs) (suc i) h = inside xs i (omega arith)

-- The item carries the weight that was given for its index.
abbrev pub IsOf : List ℕ → Item → Type 0
IsOf ws it = get_elem? ws it.index ≡ some it.weight

number-IsOf :
    (ws vs : List ℕ) (i : ℕ)
    → ((k : ℕ) → get_elem? ws (i + k) ≡ get_elem? vs k)
    → All (IsOf ws) (number i vs)
unfolding number
number-IsOf ws [] i h = tt
number-IsOf ws (v ∷ vs) i h = (
  (let same : i + 0 ≡ i = omega arith in subst (λ j. get_elem? ws j ≡ some v) same (h 0)),
  number-IsOf ws vs (suc i)
      (λ k. let next : suc i + k ≡ i + suc k = omega arith in rw next (h (suc k))),
)

total-swapped :
    (i j : ℕ) (items : List Item) (a b : Item)
    → get_elem? items i ≡ some a
    → get_elem? items j ≡ some b
    → total (set (set items i b) j a) ≡ total items
unfolding total
total-swapped i j items a b ea eb = sym (ap total here) ∙ sum_by-swap (λ it. it.weight) i j items
  where
    here : swap i j items ≡ set (set items i b) j a
    here = unfold swap in rw (ea, swap, eb) refl

-- What a step of the shuffling keeps.
record Same (ws : List ℕ) (items items' : List Item) : Type 0 where
  weights : total items' ≡ total items
  size : length items' ≡ length items
  given : All (IsOf ws) items'

swap_at-Same :
    (ws : List ℕ) (i j : ℕ) (items : List Item)
    → i < length items
    → j < length items
    → All (IsOf ws) items
    → (items' : List Item) × (swap_at i j items ≡ some items') × Same ws items items'
unfolding swap_at
swap_at-Same ws i j items hi hj h =
    let (a, ea) = inside items i hi in
    let (b, eb) = inside items j hj in
    let kept = All-set (IsOf ws) items i b h (All-get_elem? (IsOf ws) items j b h eb) in
    (
      set (set items i b) j a,
      rw (ea, eb) refl,
      record {
        weights = total-swapped i j items a b ea eb;
        size = length-set (set items i b) j a ∙ length-set items i b;
        given = All-set (IsOf ws) (set items i b) j a kept (All-get_elem? (IsOf ws) items i a h ea);
      },
    )

-- An index that was given a positive weight.
abbrev pub IsDrawable : List ℕ → ℕ → Type 0
IsDrawable ws k = (v : ℕ) × (get_elem? ws k ≡ some v) × (1 ≤ v)

module _ {Mt Re F : Type 0} (l : Library Mt Re F) (u : IsUniform l) (ws : List ℕ) where
  -- A draw from [0, n] is a position up to n.
  position-le :
      (n : ℕ) (e : Mt)
      → let r = (l.int_mt (record { low = pos 0; high = pos n }) e).0 in
        (j : ℕ) × (position r ≡ some j) × (j ≤ n)
  unfolding position
  position-le n e =
      by_sign (l.int_mt (record { low = pos 0; high = pos n }) e).0
        (u.int_mt_within (record { low = pos 0; high = pos n }) e (ground arith))
    where
      by_sign :
          (r : ℤ)
          → IsWithin (record { low = pos 0; high = pos n }) r
          → (j : ℕ) × (position r ≡ some j) × (j ≤ n)
      by_sign (pos j) h = (j, refl, ground arith)
      by_sign (negsuc j) h = absurd (ground arith)

  shuffle_loop-Same :
      (i : ℕ) (items : List Item) (e : Mt)
      → i < length items
      → All (IsOf ws) items
      → (r : List Item × Mt) × (shuffle_loop l i items e ≡ some r) × Same ws items r.0
  unfolding shuffle_loop
  shuffle_loop-Same zero items e h all =
      ((items, e), refl, record { weights = refl; size = refl; given = all })
  shuffle_loop-Same (suc i) items e h all =
      let d = l.int_mt (record { low = pos 0; high = pos (suc i) }) e in
      let (j, ej, small) = position-le (suc i) e in
      let (items', es, kept) = swap_at-Same ws (suc i) j items h (omega arith) all in
      let (r, er, kept') = shuffle_loop-Same i items' d.1 (omega (arith, kept.size)) kept.given in
      (
        r,
        rw (ej, es) er,
        record {
          weights = kept'.weights ∙ kept.weights;
          size = kept'.size ∙ kept.size;
          given = kept'.given;
        },
      )

  -- The distribution draws from [1, sum of the weights], which is not empty.
  record IsReady (d : Drawer Mt Re F) : Type 0 where
    range : d.rand.i_value ≡ record { low = pos 1; high = pos (total d.items) }
    some_weight : 1 ≤ total d.items
    given : All (IsOf ws) d.items

  begin-IsReady :
      (d : Drawer Mt Re F)
      → 1 ≤ total (number 0 ws)
      → total (number 0 ws) < 2 ^ 31
      → (d' : Drawer Mt Re F) × (begin l ws d ≡ some d') × IsReady d'
  unfolding begin between_int
  begin-IsReady d h fits =
      let items = number 0 ws in
      let enough : leb 1 (total items) ≡ true = ground arith in
      let held : ltb (total items) (2 ^ 31) ≡ true = lt→ltb (total items) (2 ^ 31) fits in
      (
        record {
          rand = between_int (pos 1) (pos (total items)) d.rand;
          sum = total items;
          items = items;
        },
        rw (held, enough) refl,
        record {
          range = refl;
          some_weight = h;
          given = number-IsOf ws ws 0 (λ k. let same : 0 + k ≡ k = omega arith in rw same refl);
        },
      )

  positive_length : (items : List Item) → 1 ≤ total items → 0 < length items
  unfolding total
  positive_length [] h = absurd (omega arith)
  positive_length (it ∷ items) h = omega arith

  shuffle_all-IsReady :
      (d : Drawer Mt Re F)
      → IsReady d
      → (d' : Drawer Mt Re F) × (shuffle_all l d ≡ some d') × IsReady d'
  unfolding shuffle_all
  shuffle_all-IsReady d r =
      let small : length d.items - 1 < length d.items =
        omega (arith, positive_length d.items r.some_weight) in
      let (s, es, kept) =
        shuffle_loop-Same (length d.items - 1) d.items d.rand.shared.mt small r.given in
      (
        record d {
          items = s.0;
          rand = record d.rand { shared = record d.rand.shared { mt = s.1 } };
        },
        rw es refl,
        record {
          range = r.range ∙ ap (λ n. record { low = pos 1; high = pos n }) (sym kept.weights);
          some_weight = omega (arith, kept.weights, r.some_weight);
          given = kept.given;
        },
      )

  walk-IsDrawable :
      (c : ℕ) (items : List Item)
      → 1 ≤ c
      → c ≤ total items
      → All (IsOf ws) items
      → (k : ℕ) × (walk c items ≡ some k) × IsDrawable ws k
  unfolding walk total
  walk-IsDrawable c [] low high h = absurd (omega arith)
  walk-IsDrawable c (it ∷ items) low high h = elim (Bool-cases (leb c it.weight)) [
    | inl here ↦ (it.index, rw here refl, (it.weight, h.0, ground arith))
    | inr on ↦ rw on (walk-IsDrawable (c - it.weight) items (ground arith) (ground arith) h.1)
  ]

  -- What `randInt_mt` gives lies between 1 and the sum of the weights.
  drawn :
      (bv : Bool) (d : Drawer Mt Re F)
      → IsReady d
      → (n : ℕ) × ((rand_int_mt l bv d.rand).0 ≡ pos n) × (1 ≤ n) × (n ≤ total d.items)
  unfolding rand_int_mt
  drawn bv d r = by_sign (rand_int_mt l bv d.rand).0 (
      subst (λ range. IsWithin range (rand_int_mt l bv d.rand).0) r.range
        (u.int_mt_within d.rand.i_value (generator bv d.rand).mt
          (subst IsOrdered (sym r.range) (let h = r.some_weight in ground arith))))
    where
      by_sign :
          (v : ℤ)
          → IsWithin (record { low = pos 1; high = pos (total d.items) }) v
          → (n : ℕ) × (v ≡ pos n) × (1 ≤ n) × (n ≤ total d.items)
      by_sign (pos n) h = (n, refl, ground arith, ground arith)
      by_sign (negsuc n) h = absurd (ground arith)

  draw_index-IsReady :
      (bv : Bool) (d : Drawer Mt Re F)
      → IsReady d
      → (r : ℕ × Drawer Mt Re F) × (draw_index l bv d ≡ some r) × IsDrawable ws r.0 × IsReady r.1
  unfolding draw_index walk_from
  draw_index-IsReady bv d r =
      let (n, en, low, high) = drawn bv d r in
      let (k, ek, drawable) = walk-IsDrawable n d.items low high r.given in
      let full : leb 1 (length d.items) ≡ true =
        let h = positive_length d.items r.some_weight in ground arith in
      (
        (k, record d { rand = (rand_int_mt l bv d.rand).1 }),
        rw (full, en, ek) refl,
        drawable,
        record {
          range = unfold rand_int_mt in ((put-ranges l bv _ d.rand).0 ∙ r.range);
          some_weight = r.some_weight;
          given = r.given;
        },
      )

  serve-IsDrawable :
      (asks : List Ask) (d : Drawer Mt Re F)
      → IsReady d
      → (r : List ℕ × Drawer Mt Re F) × (serve l asks d ≡ some r) × All (IsDrawable ws) r.0
  unfolding serve
  serve-IsDrawable [] d r = (([], d), refl, tt)
  serve-IsDrawable (again ∷ asks) d r =
      let (d', e, r') = shuffle_all-IsReady d r in
      let (out, eo, all) = serve-IsDrawable asks d' r' in (out, rw e eo, all)
  serve-IsDrawable (result bv ∷ asks) d r =
      let (q, e, drawable, r') = draw_index-IsReady bv d r in
      let (out, eo, all) = serve-IsDrawable asks q.1 r' in
      ((q.0 ∷ out.0, out.1), rw (e, eo) refl, (drawable, all))

-- If a uniform distribution draws from its range, and the weights given to init, none of them
-- negative, add up to at least 1 and to less than 2 ^ 31: init and then any calls of shuffle and
-- getResult, on either generator, all return, with no access outside the vectors, no overflow of
-- the sum and no failed assertion; each getResult leaves its loop by the return, and its answer
-- is an index that was given a positive weight.
pub answers-IsDrawable :
    {Mt Re F : Type 0} (l : Library Mt Re F) (ws : List ℕ) (d : Drawer Mt Re F) (asks : List Ask)
    → IsUniform l
    → 1 ≤ total (number 0 ws)
    → total (number 0 ws) < 2 ^ 31
    → (r : List ℕ × Drawer Mt Re F) × ((begin l ws d >>= serve l asks) ≡ some r)
      × All (IsDrawable ws) r.0
answers-IsDrawable l ws d asks u h fits =
    let (d', e, ready) = begin-IsReady l u ws d h fits in
    let (r, er, all) = serve-IsDrawable l u ws asks d' ready in (r, rw e er, all)
