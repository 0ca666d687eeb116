-- ===== src/Gate/Workers/Choice.antt =====
-- Framework/game_gate/EntryPtr.h, `setWorker`: the worker that is chosen.
use cppserver.Prelude.{
  ℕ, zero, suc, ◌+◌, ◌^◌, ◌%◌, ◌<◌, ◌≤◌, ◌≡◌, refl, List, [], ◌∷◌, some, length, get_elem?, ltb,
  lt→ltb, true, String, arith,
}
use native.Mathlib.Nat.{mod-lt, mod-eq_of_lt}
use cppserver.Gate.Workers.{to_size, size_mod, element, set_worker_by_session, set_worker_next}

pub get_elem?-in_range {ℓ} :
    {A : Type ℓ} (xs : List A) (i : ℕ) → i < length xs → (a : A) × (get_elem? xs i ≡ some a)
get_elem?-in_range [] i h = absurd (omega arith)
get_elem?-in_range (x ∷ xs) zero h = (x, refl)
get_elem?-in_range (x ∷ xs) (suc i) h = get_elem?-in_range xs i (omega arith)

size_mod-pos : (n size : ℕ) → 0 < size → size_mod n size ≡ some (n % size)
unfolding size_mod
size_mod-pos n size pos = ground arith

-- What an index below the size of a pool of at most 2 ^ 31 workers reads, as an `int`.
element-in_range :
    (pool : List ℕ) (i a : ℕ)
    → i < length pool
    → length pool ≤ 2 ^ 31
    → get_elem? pool i ≡ some a
    → (i % 2 ^ 32 ≡ i) × (ltb i (2 ^ 31) ≡ true) × (element pool i ≡ some a)
unfolding element
element-in_range pool i a h small found =
    let low : ltb i (2 ^ 31) ≡ true = lt→ltb i (2 ^ 31) (omega arith) in
    (mod-eq_of_lt (omega arith), low, rw low found)

-- With at least one worker and at most 2 ^ 31 the counter's test for a negative index never
-- passes: the worker is the one at the counter's value, sign-extended to 64 bits, modulo their
-- number, and the counter goes one on, modulo 2 ^ 32.
pub set_worker_next-eq :
    (counter : ℕ) (pool : List ℕ)
    → 0 < length pool
    → length pool ≤ 2 ^ 31
    → (thread : ℕ) × (get_elem? pool (to_size counter % length pool) ≡ some thread)
      × (set_worker_next counter pool ≡ some (thread, (counter + 1) % 2 ^ 32))
unfolding set_worker_next
set_worker_next-eq counter pool pos small =
    let index = to_size counter % length pool in
    let (thread, found) = get_elem?-in_range pool index (mod-lt _ pos) in
    let (same, low, _) = element-in_range pool index thread (mod-lt _ pos) small found in
    (thread, found, rw (size_mod-pos (to_size counter) (length pool) pos, same, low, found) refl)

-- With at least one worker and at most 2 ^ 31 a session has one worker, the one at its hash
-- modulo their number.
pub set_worker_by_session-total :
    (hash : String → ℕ) (session : String) (pool : List ℕ)
    → 0 < length pool
    → length pool ≤ 2 ^ 31
    → (thread : ℕ) × (get_elem? pool (hash session % length pool) ≡ some thread)
      × (set_worker_by_session hash session pool ≡ some thread)
unfolding set_worker_by_session
set_worker_by_session-total hash session pool pos small =
    let (thread, found) = get_elem?-in_range pool (hash session % length pool) (mod-lt _ pos) in
    let (same, _, read) =
      element-in_range pool (hash session % length pool) thread (mod-lt _ pos) small found in
    (thread, found, rw (size_mod-pos (hash session) (length pool) pos, same) read)
