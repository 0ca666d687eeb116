-- ===== src/Gate/Workers.antt =====
-- Framework/game_gate/EntryPtr.h, the two `setWorker` of `Context`: how a connection is given its
-- worker thread. A thread pool is a number. The atomic 32-bit counter is its bit pattern.
pub mod Choice
pub mod Rotation
use cppserver.Prelude.{
  ℕ, ◌+◌, ◌-◌, ◌^◌, ◌%◌, ◌==◌, List, Option, none, some, ◌>>=◌, if◌then◌else◌, length, get_elem?,
  ltb, String,
}

-- `AtomicInt32::getAndAdd(1)`: the old value, and the counter.
unfoldable pub get_and_add : ℕ → ℕ × ℕ
get_and_add counter = (counter, (counter + 1) % 2 ^ 32)

-- An `int32_t` operand of `% size()` is converted to `size_t`: the sign is extended.
unfoldable pub to_size : ℕ → ℕ
to_size n = if ltb n (2 ^ 31) then n else n + 2 ^ 64 - 2 ^ 32

-- A remainder by 0 is undefined.
unfoldable pub size_mod : ℕ → ℕ → Option ℕ
size_mod n size = if size == 0 then none else some (n % size)

-- `threadPool_[index]` at the bit pattern of an `int`: a negative or too large index is no element.
unfoldable pub element : List ℕ → ℕ → Option ℕ
element pool index = if ltb index (2 ^ 31) then get_elem? pool index else none

-- The worker's thread by the hash of the session (`hash_session_` is the standard library's).
unfoldable pub set_worker_by_session : (String → ℕ) → String → List ℕ → Option ℕ
unfolding size_mod element
set_worker_by_session hash session pool = do
  remainder ← size_mod (hash session) (length pool)
  element pool (remainder % 2 ^ 32)

unfoldable pub thread_at : List ℕ → ℕ × ℕ → Option (ℕ × ℕ)
thread_at pool (index, counter) = do thread ← element pool index; some (thread, counter)

-- `if (index < 0) { nextPool_.getAndSet(0); index = nextPool_.getAndAdd(1); }` and the read.
unfoldable pub choose : List ℕ → ℕ × ℕ → Option (ℕ × ℕ)
unfolding get_and_add thread_at element
choose pool (index, counter) =
    if ltb index (2 ^ 31) then thread_at pool (index, counter) else thread_at pool (get_and_add 0)

-- The worker's thread by the counter, and the counter after.
unfoldable pub set_worker_next : ℕ → List ℕ → Option (ℕ × ℕ)
unfolding get_and_add to_size size_mod choose
set_worker_next counter pool = do
  remainder ← size_mod (to_size (get_and_add counter).0) (length pool)
  choose pool (remainder % 2 ^ 32, (get_and_add counter).1)
