-- ===== src/Replay/Slots.antt =====
-- public/gameStruct.h: the loop that `addResult`, `addPlayer` and `addStep` share. It takes the
-- first slot that is not marked, and appends one if all are.
use cppserver.Prelude.{
  ℕ, ◌+◌, ◌≡◌, refl, Bool, true, false, List, [], ◌∷◌, ◌++◌, map, arith, if◌then◌else◌, length,
  ◌==◌, Bool-cases, inl, inr, sym, ◌∙◌,
}
use mathlib.Core.Bool.{false≢true}

module _ {ℓ} {A : Type ℓ} (mark : A → Bool) where
  unfoldable pub fill : (A → A) → A → List A → List A
  fill write fresh [] = fresh ∷ []
  fill write fresh (x ∷ xs) = if mark x then x ∷ fill write fresh xs else write x ∷ xs

  -- The entries that are marked, in order.
  unfoldable pub marked : List A → List A
  marked [] = []
  marked (x ∷ xs) = if mark x then x ∷ marked xs else marked xs

  unfoldable pub unmarked : List A → ℕ
  unmarked [] = 0
  unmarked (x ∷ xs) = if mark x then unmarked xs else unmarked xs + 1

  -- No marked slot stands behind an unmarked one.
  abbrev pub IsPacked : List A → Type ℓ
  IsPacked [] = Unit
  IsPacked (x ∷ xs) = (mark x ≡ false → marked xs ≡ []) × IsPacked xs

  module _ (write : A → A) (fresh : A) (same : (x : A) → write x ≡ fresh)
      (set : mark fresh ≡ true) where
    pub marked-fill :
        (xs : List A) → IsPacked xs → marked (fill write fresh xs) ≡ marked xs ++ fresh ∷ []
    unfolding fill marked
    marked-fill [] h = rw set
    marked-fill (x ∷ xs) h = ground (arith, same x, marked-fill xs h.1)

    pub fill-IsPacked : (xs : List A) → IsPacked xs → IsPacked (fill write fresh xs)
    unfolding fill marked
    fill-IsPacked [] h = ((λ _. refl), tt)
    fill-IsPacked (x ∷ xs) h = elim (Bool-cases (mark x)) [
      | inl taken ↦
          rw taken ((λ free. absurd (false≢true (sym free ∙ taken))), fill-IsPacked xs h.1)
      | inr free ↦ rw (free, same x) ((λ unset. absurd (false≢true (sym unset ∙ set))), h.1)
    ]

    -- A slot is appended only if none is free.
    pub length-fill :
        (xs : List A)
        → length (fill write fresh xs) ≡ (if unmarked xs == 0 then length xs + 1 else length xs)
    unfolding fill unmarked
    length-fill [] = refl
    length-fill (x ∷ xs) = ground (arith, length-fill xs)

  module _ (reset : A → A) (unset : (x : A) → mark (reset x) ≡ false) where
    pub marked-map-reset : (xs : List A) → marked (map reset xs) ≡ []
    unfolding marked
    marked-map-reset [] = refl
    marked-map-reset (x ∷ xs) = rw (unset x) (marked-map-reset xs)

    pub map-reset-IsPacked : (xs : List A) → IsPacked (map reset xs)
    map-reset-IsPacked [] = tt
    map-reset-IsPacked (x ∷ xs) = ((λ _. marked-map-reset xs), map-reset-IsPacked xs)
