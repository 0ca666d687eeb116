-- ===== src/Gate/Workers/Rotation.antt =====
-- Framework/game_gate/EntryPtr.h, `setWorker`: the order in which the connections get the workers.
use cppserver.Prelude.{
  ℕ, zero, suc, ◌+◌, ◌^◌, ◌%◌, ◌<◌, ◌≤◌, ◌≡◌, refl, List, [], ◌∷◌, Option, some, ◌>>=◌, length,
  get_elem?, arith, ap, sym, ◌∙◌,
}
use native.Mathlib.Nat.{mod-eq_of_lt, add-zero}
use cppserver.Gate.Workers.{to_size, set_worker_next}
use cppserver.Gate.Workers.Choice.{set_worker_next-eq}

-- The workers of the next `n` connections, and the counter after.
unfoldable pub picks : ℕ → ℕ → List ℕ → Option (List ℕ × ℕ)
picks zero counter pool = some ([], counter)
picks (suc n) counter pool = do
  (thread, counter1) ← set_worker_next counter pool
  (threads, counter2) ← picks n counter1 pool
  some (thread ∷ threads, counter2)

to_size_small : (counter : ℕ) → counter < 2 ^ 31 → to_size counter ≡ counter
unfolding to_size
to_size_small counter h = ground arith

turn-cons :
    (thread counter n : ℕ) (threads pool : List ℕ)
    → get_elem? pool (counter % length pool) ≡ some thread
    → ((i : ℕ) → i < n → get_elem? threads i ≡ get_elem? pool ((counter + 1 + i) % length pool))
    → (i : ℕ) → i < suc n
    → get_elem? (thread ∷ threads) i ≡ get_elem? pool ((counter + i) % length pool)
turn-cons thread counter n threads pool found turn zero h = rw (add-zero counter) (sym found)
turn-cons thread counter n threads pool found turn (suc i) h =
    turn i (omega arith) ∙ ap (λ (k : ℕ). get_elem? pool (k % length pool)) (omega arith)

-- With at least one worker and at most 2 ^ 31, as long as the counter stays below 2 ^ 31, the
-- workers are taken in turn: the connection i places on gets the worker at counter + i modulo
-- their number, and none is refused.
pub picks_in_turn :
    (n counter : ℕ) (pool : List ℕ)
    → 0 < length pool
    → length pool ≤ 2 ^ 31
    → counter + n < 2 ^ 31
    → (threads : List ℕ) × (picks n counter pool ≡ some (threads, counter + n))
      × (length threads ≡ n)
      × ((i : ℕ) → i < n → get_elem? threads i ≡ get_elem? pool ((counter + i) % length pool))
unfolding picks
picks_in_turn zero counter pool pos small low =
    ([], rw (add-zero counter), refl, λ i h. absurd (omega arith))
picks_in_turn (suc n) counter pool pos small low =
    let (thread, found, chosen) = set_worker_next-eq counter pool pos small in
    let (threads, picked, count, turn) =
      picks_in_turn n (counter + 1) pool pos small (omega arith) in
    let next : (counter + 1) % 2 ^ 32 ≡ counter + 1 = mod-eq_of_lt (omega arith) in
    let whole : counter + 1 + n ≡ counter + suc n = omega arith in
    (
      thread ∷ threads,
      rw (chosen, next, picked, whole) refl,
      omega arith,
      turn-cons thread counter n threads pool
          (ap (λ (k : ℕ). get_elem? pool (k % length pool))
              (sym (to_size_small counter (omega arith)))
            ∙ found)
          turn,
    )
