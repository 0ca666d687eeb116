-- ===== src/Tests/Guards.antt =====
-- Tests of the models of the locks that are held for a scope, and of Atomic.h.
use cppserver.Prelude.{ℕ, ◌≡◌, refl, Bool, true, false, List, [], ◌∷◌, some, none, length}
use cppserver.Prelude.Int.{ℤ, pos, negsuc}
use cppserver.Guards.{RedLock, Code, done, guard, run, finish, scope, run_locked}
use cppserver.Guards.Red.{IsLocking, with_unlock, run-guards}
use cppserver.Atomic.Windows
use cppserver.Atomic.Linux

-- A lock is a number; a negative time is refused.
abbrev take : ℤ → ℕ → List ℕ → (Bool × ℕ) × List ℕ
take (pos ttl) l s = ((true, length s), length s ∷ s)
take (negsuc ttl) l s = ((false, l), s)

abbrev give : ℕ → List ℕ → List ℕ
give l [] = []
give l (k ∷ s) = s

abbrev server : RedLock (List ℕ) ℕ
server = record {
  fresh = 0;
  lock = λ resource ttl l s. take ttl l s;
  continue_lock = λ resource ttl l s. ((true, 7), s);
  unlock = give;
}

abbrev all_held : List ℕ → List ℕ
all_held s = s

won :
    (ttl : ℤ) (l : ℕ) (s : List ℕ)
    → (take ttl l s).0.0 ≡ true
    → (take ttl l s).1 ≡ (take ttl l s).0.1 ∷ s
won (pos n) l s e = refl
won (negsuc n) l s e = cc

lost : (ttl : ℤ) (l : ℕ) (s : List ℕ) → (take ttl l s).0.0 ≡ false → (take ttl l s).1 ≡ s
lost (pos n) l s e = cc
lost (negsuc n) l s e = refl

given_up : (l : ℕ) (s rest : List ℕ) → s ≡ l ∷ rest → give l s ≡ rest
given_up l [] rest e = cc
given_up l (k ∷ s) rest e = cc

server-IsLocking : IsLocking server all_held
server-IsLocking = record {
  locked = λ resource. won;
  refused = λ resource. lost;
  unlocked = given_up;
}

abbrev nested : Code
nested = guard "a" (pos 9) false (guard "b" (negsuc 0) false done done) done

abbrev renewed : Code
renewed = guard "a" (pos 9) true done done

run-guards_example :
    (run server nested (5 ∷ []) ≡ 5 ∷ [])
    × (run (with_unlock server (λ l s. [])) renewed (5 ∷ []) ≡ run server renewed (5 ∷ []))
run-guards_example =
    run-guards server all_held nested renewed (5 ∷ []) server-IsLocking (refl, (refl, tt, tt), tt)
      (refl, tt, tt) (λ l s. [])

-- One mutex in two scopes is locked twice; the same two mutexes one after the other are not.
twice : run_locked (scope 1 (scope 1 finish finish) finish) [] ≡ none
unfolding run_locked
twice = refl

in_turn : run_locked (scope 1 (scope 2 finish finish) (scope 1 finish finish)) [] ≡ some []
unfolding run_locked
in_turn = refl

-- The values of atom_sub differ.
windows_sub : Windows.atom_sub 32 5 2 ≡ (5, 3)
unfolding Windows.atom_sub
windows_sub = refl

linux_sub : Linux.atom_sub 32 5 2 ≡ (3, 3)
unfolding Linux.atom_sub
linux_sub = refl
