-- ===== src/Prelude/Maps.antt =====
-- `std::map` as a list of entries in the order of the keys: `lookup` is `find`, `insert` is the
-- assignment `m[k] = v` (an entry that is there is overwritten, a new one is put in its place),
-- `erase` is `erase` at a found iterator, `contains` is `find(k) != end()`. The order of a key
-- type is an instance; the laws below hold for every test `before`.
use Prim.Native.Nat.{◌+◌}
use Prim.Native.String.{String, compare}
use mathlib.Core.Path.{◌≡◌, refl}
use mathlib.Core.Logic.{◌↔◌, inl, inr}
use mathlib.Core.Bool.{Bool, true, false}
use mathlib.Core.List.{List, [], ◌∷◌}
use mathlib.Core.Option.{Option, none, some}
use native.Mathlib.Omega.{arith}
use text.Mathlib.Text.{is_lt, ◌==◌ as str_eq}
use text.Mathlib.TextEquality.{eq_iff}
use cppserver.Prelude.Tests.{if◌then◌else◌, ◌==◌ as nat_eq, Option-cases}
use cppserver.Prelude.Lists.{length}
use cppserver.Prelude.Int.{ℤ, pos, negsuc, ltb_ℤ}

pub record Key {ℓ} (K : Type ℓ) : Type ℓ where
  pub beq : K → K → Bool
  pub beq_iff : (a b : K) → (beq a b ≡ true) ↔ (a ≡ b)
  pub before : K → K → Bool

abbrev pub beq_ℤ : ℤ → ℤ → Bool
beq_ℤ (pos a) (pos b) = nat_eq a b
beq_ℤ (negsuc a) (negsuc b) = nat_eq a b
beq_ℤ _ _ = false

pub beq_ℤ_iff : (a b : ℤ) → (beq_ℤ a b ≡ true) ↔ (a ≡ b)
beq_ℤ_iff (pos a) (pos b) = ground arith
beq_ℤ_iff (pos a) (negsuc b) = ground arith
beq_ℤ_iff (negsuc a) (pos b) = ground arith
beq_ℤ_iff (negsuc a) (negsuc b) = ground arith

instance abbrev pub ℤ_key : Key ℤ
ℤ_key = record { beq = beq_ℤ; beq_iff = beq_ℤ_iff; before = ltb_ℤ }

-- The bytes of two texts are compared from the left, as `std::string` does.
instance abbrev pub string_key : Key String
string_key = record { beq = str_eq; beq_iff = eq_iff; before = λ s t. is_lt (compare s t) }

module _ {ℓ κ} {K : Type ℓ} {V : Type κ} ⦃o : Key K⦄ where
  unfoldable pub lookup : K → List (K × V) → Option V
  lookup k [] = none
  lookup k ((j, v) ∷ m) = if o.beq j k then some v else lookup k m

  unfoldable pub update : K → V → List (K × V) → List (K × V)
  update k v [] = []
  update k v ((j, w) ∷ m) = if o.beq j k then (k, v) ∷ m else (j, w) ∷ update k v m

  unfoldable pub place : K → V → List (K × V) → List (K × V)
  place k v [] = (k, v) ∷ []
  place k v ((j, w) ∷ m) = if o.before k j then (k, v) ∷ (j, w) ∷ m else (j, w) ∷ place k v m

  unfoldable pub insert : K → V → List (K × V) → List (K × V)
  insert k v m = elim (lookup k m) [ none ↦ place k v m | some w ↦ update k v m ]

  unfoldable pub erase : K → List (K × V) → List (K × V)
  erase k [] = []
  erase k ((j, w) ∷ m) = if o.beq j k then erase k m else (j, w) ∷ erase k m

  unfoldable pub contains : K → List (K × V) → Bool
  contains k m = elim (lookup k m) [ none ↦ false | some v ↦ true ]

  -- A key stands once.
  abbrev pub Distinct : List (K × V) → Type κ
  Distinct [] = Unit
  Distinct ((k, v) ∷ m) = (lookup k m ≡ none) × Distinct m

pub beq_refl {ℓ} : {K : Type ℓ} ⦃o : Key K⦄ (k : K) → o.beq k k ≡ true
beq_refl ⦃o⦄ k = (o.beq_iff k k).1 refl

module _ {ℓ κ} {K : Type ℓ} {V : Type κ} ⦃o : Key K⦄ where
  lookup-update :
      (j k : K) (v w : V) (m : List (K × V))
      → lookup k m ≡ some w
      → lookup j (update k v m) ≡ (if o.beq k j then some v else lookup j m)
  unfolding lookup update
  lookup-update j k v w [] h = cc
  lookup-update j k v w ((i, u) ∷ m) h =
      ground (arith, o.beq_iff i k, o.beq_iff k j, o.beq_iff i j, lookup-update j k v w m)

  lookup-place :
      (j k : K) (v : V) (m : List (K × V))
      → lookup k m ≡ none
      → lookup j (place k v m) ≡ (if o.beq k j then some v else lookup j m)
  unfolding lookup place
  lookup-place j k v [] h = refl
  lookup-place j k v ((i, w) ∷ m) h =
      ground (arith, o.beq_iff i k, o.beq_iff k j, o.beq_iff i j, lookup-place j k v m)

  lookup-update-none :
      (j k : K) (v : V) (m : List (K × V)) → lookup j m ≡ none → lookup j (update k v m) ≡ none
  unfolding lookup update
  lookup-update-none j k v [] h = refl
  lookup-update-none j k v ((i, w) ∷ m) h =
      ground (arith, o.beq_iff i k, o.beq_iff i j, o.beq_iff k j, lookup-update-none j k v m)

  -- After `m[k] = v` the key `k` has the value `v`, and every other key what it had.
  pub lookup-insert :
      (j k : K) (v : V) (m : List (K × V))
      → lookup j (insert k v m) ≡ (if o.beq k j then some v else lookup j m)
  unfolding insert
  lookup-insert j k v m = elim (Option-cases (lookup k m)) [
    | inl e ↦ rw (e, insert) (lookup-place j k v m e)
    | inr (w, e) ↦ rw (e, insert) (lookup-update j k v w m e)
  ]

  pub lookup-erase :
      (j k : K) (m : List (K × V)) → lookup j (erase k m) ≡ (if o.beq k j then none else lookup j m)
  unfolding lookup erase
  lookup-erase j k [] = ground arith
  lookup-erase j k ((i, w) ∷ m) =
      ground (arith, o.beq_iff i k, o.beq_iff k j, o.beq_iff i j, lookup-erase j k m)

  pub lookup-insert_self : (k : K) (v : V) (m : List (K × V)) → lookup k (insert k v m) ≡ some v
  lookup-insert_self k v m = rw (lookup-insert k k v m, beq_refl k)

  pub lookup-erase_self : (k : K) (m : List (K × V)) → lookup k (erase k m) ≡ none
  lookup-erase_self k m = rw (lookup-erase k k m, beq_refl k)

  pub erase_absent : (k : K) (m : List (K × V)) → lookup k m ≡ none → erase k m ≡ m
  unfolding lookup erase
  erase_absent k [] h = refl
  erase_absent k ((j, w) ∷ m) h = ground (arith, erase_absent k m)

  length-place : (k : K) (v : V) (m : List (K × V)) → length (place k v m) ≡ length m + 1
  unfolding place
  length-place k v [] = omega arith
  length-place k v ((j, w) ∷ m) = ground (arith, length-place k v m)

  length-update : (k : K) (v : V) (m : List (K × V)) → length (update k v m) ≡ length m
  unfolding update
  length-update k v [] = refl
  length-update k v ((j, w) ∷ m) = ground (arith, length-update k v m)

  -- A new key is one more entry; an old one is overwritten.
  pub length-insert :
      (k : K) (v : V) (m : List (K × V))
      → length (insert k v m) ≡ (if contains k m then length m else length m + 1)
  unfolding insert contains
  length-insert k v m = ground (arith, length-place k v m, length-update k v m)

  pub length-erase :
      (k : K) (m : List (K × V)) {v : V}
      → Distinct m
      → lookup k m ≡ some v
      → length (erase k m) + 1 ≡ length m
  unfolding lookup erase
  length-erase k [] d h = cc
  length-erase k ((j, w) ∷ m) {v} d h =
      ground (arith, o.beq_iff j k, length-erase k m {v = v} d.1, erase_absent k m)

  place-Distinct :
      (k : K) (v : V) (m : List (K × V)) → lookup k m ≡ none → Distinct m → Distinct (place k v m)
  unfolding lookup place
  place-Distinct k v [] h d = (refl, tt)
  place-Distinct k v ((j, w) ∷ m) h d =
      ground (arith, o.beq_iff j k, o.beq_iff k j, place-Distinct k v m, lookup-place j k v m)

  update-Distinct : (k : K) (v : V) (m : List (K × V)) → Distinct m → Distinct (update k v m)
  unfolding lookup update
  update-Distinct k v [] d = tt
  update-Distinct k v ((j, w) ∷ m) d =
      ground
        (arith, o.beq_iff j k, o.beq_iff k j, update-Distinct k v m, lookup-update-none j k v m)

  pub insert-Distinct : (k : K) (v : V) (m : List (K × V)) → Distinct m → Distinct (insert k v m)
  unfolding insert
  insert-Distinct k v m d = elim (Option-cases (lookup k m)) [
    | inl e ↦ rw (e, insert) (place-Distinct k v m e d)
    | inr (w, e) ↦ rw (e, insert) (update-Distinct k v m d)
  ]

  pub erase-Distinct : (k : K) (m : List (K × V)) → Distinct m → Distinct (erase k m)
  unfolding lookup erase
  erase-Distinct k [] d = tt
  erase-Distinct k ((j, w) ∷ m) d = ground (arith, erase-Distinct k m d.1, lookup-erase j k m)

abbrev pub is_empty : String → Bool
is_empty s = str_eq s ""
