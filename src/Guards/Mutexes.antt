-- ===== src/Guards/Mutexes.antt =====
-- thirdpart/Logger/src/lock/mutex.h, `Mutex::Guard`: nested scopes give back what they take.
use cppserver.Prelude.{
  ℕ, ◌≡◌, refl, Bool, true, not, ◌&&◌, List, ◌∷◌, none, some, if◌then◌else◌, Bool-cases, inl, inr,
  arith,
}
use cppserver.Guards.{holds, release, mutex_lock, mutex_unlock, Locked, finish, scope, run_locked}

-- No scope takes a mutex that a scope around it, or the thread before, has taken.
unfoldable pub is_distinct : Locked → List ℕ → Bool
is_distinct finish held = true
is_distinct (scope m body rest) held =
    not (holds m held) && (is_distinct body (m ∷ held) && is_distinct rest held)

unlock_last : (m : ℕ) (held : List ℕ) → mutex_unlock m (m ∷ held) ≡ some held
unfolding mutex_unlock holds release
unlock_last m held = ground arith

-- A program of nested Mutex::Guard scopes runs to its end exactly if no scope takes a mutex that
-- one around it, or the thread before, has taken; then the thread holds afterwards what it held
-- before, and else it locks a mutex twice.
pub run_locked-eq :
    (code : Locked) (held : List ℕ)
    → run_locked code held ≡ (if is_distinct code held then some held else none)
unfolding run_locked is_distinct mutex_lock
run_locked-eq finish held = refl
run_locked-eq (scope m body rest) held = elim (Bool-cases (holds m held)) [
  | inl twice ↦ rw twice refl
  | inr free ↦
      rw (free, run_locked-eq body (m ∷ held))
        (elim (Bool-cases (is_distinct body (m ∷ held))) [
          | inl inner ↦ rw (inner, unlock_last m held) (run_locked-eq rest held)
          | inr clash ↦ rw clash refl
        ])
]
