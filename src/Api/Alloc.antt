-- ===== src/Api/Alloc.antt =====
-- thirdpart/https/ApiServer.h, `EventLoopContext`: which worker a connection gets.
use cppserver.Prelude.{
  ◌+◌, ◌^◌, ◌%◌, ◌<◌, ◌≤◌, ◌≡◌, refl, true, ltb, lt→ltb, some, length, get_elem?, arith,
}
use native.Mathlib.Nat.{mod-lt, mod-eq_of_lt}
use cppserver.Prelude.Int.{ℤ}
use cppserver.Gate.Workers.{get_and_add, to_size, size_mod}
use cppserver.Gate.Workers.Choice.{get_elem?-in_range}
use cppserver.Api.{EventLoopContext, wrap_around, pick, alloc_worker_index}

-- With at least one worker and at most 2 ^ 31, allocWorkerIndex passes its assert and never takes
-- its branch for a negative index: the worker is the one at the counter's value, sign-extended to
-- 64 bits, modulo their number, and the counter goes one on, modulo 2 ^ 32.
pub alloc_worker_index-eq :
    (c : EventLoopContext)
    → 0 < length c.pool
    → length c.pool ≤ 2 ^ 31
    → (worker : ℤ) × (get_elem? c.pool (to_size c.next_pool % length c.pool) ≡ some worker)
      × (alloc_worker_index c ≡ some (worker, record c { next_pool = (c.next_pool + 1) % 2 ^ 32 }))
unfolding alloc_worker_index get_and_add size_mod wrap_around pick
alloc_worker_index-eq c some_workers small =
    let index = to_size c.next_pool % length c.pool in
    let below : index < length c.pool = mod-lt _ some_workers in
    let (worker, found) = get_elem?-in_range c.pool index below in
    let same : index % 2 ^ 32 ≡ index = mod-eq_of_lt (omega arith) in
    let low : ltb index (2 ^ 31) ≡ true = lt→ltb index (2 ^ 31) (omega arith) in
    let inside : ltb index (length c.pool) ≡ true = lt→ltb index (length c.pool) below in
    let divides : size_mod (to_size c.next_pool) (length c.pool) ≡ some index =
      ground (arith, some_workers) in
    (worker, found, rw (divides, same, low) (rw (low, inside, found) refl))
