-- ===== src/Api.antt =====
-- thirdpart/https/ApiServer.h: the HTTP server's wheel of idle connections, `ConnBucket`, the
-- context of a connection and that of an event loop, which hands out the indices of its workers.
-- The gate has parts of the same kind; these are translated from their own text.
pub mod Timeout
pub mod Alloc
use cppserver.Prelude.{
  ℕ, ◌+◌, ◌-◌, ◌^◌, ◌%◌, ◌==◌, Bool, true, false, not, ◌&&◌, ◌||◌, List, [], ◌∷◌, ◌++◌, Option,
  none, some, String, assert, ◌>>=◌, ◌>>◌, if◌then◌else◌, is_some, length, get_elem?, ltb,
  replicate, take,
}
use cppserver.Prelude.Int.{ℤ, pos, negsuc, ltb_ℤ}
use cppserver.Gate.World.{World, Weak, lock}
use cppserver.Gate.Buckets.{Bucket, insert, Loop}
use cppserver.Gate.Workers.{get_and_add, to_size, size_mod}

pub data EntryTy : Type 0 where
  http tcp : EntryTy

pub record Entry : Type 0 where
  pub ty : EntryTy
  pub locked : Bool
  pub weak_conn : Weak
  pub peer_name : String
  pub local_name : String

unfoldable pub init_entry : EntryTy → Weak → String → String → Entry
init_entry ty weak_conn peer_name local_name = record {
  ty = ty;
  locked = false;
  weak_conn = weak_conn;
  peer_name = peer_name;
  local_name = local_name;
}

unfoldable pub set_locked : Entry → Entry
set_locked e = record e { locked = true }

-- The head of `buckets` is the back of the circular buffer.
pub record ConnBucket : Type 0 where
  pub index : ℤ
  pub capacity : ℕ
  pub buckets : List Bucket

unfoldable pub init_bucket : ℤ → ℕ → ConnBucket
init_bucket index size = record { index = index; capacity = size; buckets = replicate size [] }

-- The timer calls it again after 1.0 s, whatever happens.
unfoldable pub on_timer : ConnBucket → ConnBucket
on_timer b = record b { buckets = take b.capacity ([] ∷ b.buckets) }

-- `buckets_.back().insert(entry)`.
unfoldable pub insert_back : ℕ → ConnBucket → Option ConnBucket
insert_back e b = elim b.buckets [
  | [] ↦ none
  | bucket ∷ older ↦ some (record b { buckets = insert e bucket ∷ older })
]

unfoldable pub push_bucket : Loop → Option ℕ → ConnBucket → Option ConnBucket
push_bucket l none b = some b
push_bucket l (some e) b = elim (lock l.world (l.weak_conn e)) [
  | none ↦ some b
  | some conn ↦ do assert (not l.debug || l.on_loop conn); insert_back e b
]

unfoldable pub update_bucket : Loop → Option ℕ → ConnBucket → Option ConnBucket
update_bucket l none b = some b
update_bucket l (some e) b = elim (lock l.world (l.weak_conn e)) [
  | none ↦ some b
  | some conn ↦ do assert (not l.debug || l.on_loop conn); insert_back e b
]

pub record Context (Any : Type 0) : Type 0 where
  pub index : ℤ
  pub ipaddr : ℕ
  pub session : String
  pub weak_entry : Option ℕ
  pub context : Option Any

module _ {Any : Type 0} where
  unfoldable pub reset : Context Any → Context Any
  reset c = record c { ipaddr = 0; session = "" }

  -- The constructors: `index_(0XFFFFFFFF)` is -1 as an `int`, and a context that is given is not
  -- empty.
  unfoldable pub init_context : Option ℕ → Context Any
  init_context weak_entry = record {
    index = negsuc 0;
    ipaddr = 0;
    session = "";
    weak_entry = weak_entry;
    context = none;
  }

  unfoldable pub init_context_with : Bool → Option ℕ → Option Any → Option (Context Any)
  unfolding init_context
  init_context_with debug weak_entry context = do
    assert (not debug || is_some context)
    some (record (init_context weak_entry) { context = context })

  unfoldable pub set_worker_index : Bool → ℤ → Context Any → Option (Context Any)
  set_worker_index debug index c = do
    assert (not debug || not (ltb_ℤ index (pos 0)))
    some (record c { index = index })

  unfoldable pub set_context : Option Any → Context Any → Context Any
  set_context context c = record c { context = context }

  unfoldable pub set_from_ip : ℕ → Context Any → Context Any
  set_from_ip inaddr c = record c { ipaddr = inaddr }

  unfoldable pub set_session : String → Context Any → Context Any
  set_session session c = record c { session = session }

-- `next_pool` is the bit pattern of the atomic counter.
pub record EventLoopContext : Type 0 where
  pub index : ℤ
  pub pool : List ℤ
  pub next_pool : ℕ

unfoldable pub init_loop_context : Bool → ℤ → Option EventLoopContext
init_loop_context debug index = do
  assert (not debug || not (ltb_ℤ index (pos 0)))
  some (record { index = index; pool = []; next_pool = 0 })

unfoldable pub set_bucket_index : Bool → ℤ → EventLoopContext → Option EventLoopContext
set_bucket_index debug index c = do
  assert (not debug || not (ltb_ℤ index (pos 0)))
  some (record c { index = index })

unfoldable pub add_worker_index : ℤ → EventLoopContext → EventLoopContext
add_worker_index index c = record c { pool = c.pool ++ index ∷ [] }

-- `if (index < 0) { nextPool_.getAndSet(-1); index = nextPool_.addAndGet(1); }`: the index and
-- the counter.
unfoldable pub wrap_around : ℕ → ℕ → ℕ × ℕ
wrap_around index next =
    if ltb index (2 ^ 31)
    then (index, next)
    else ((2 ^ 32 - 1 + 1) % 2 ^ 32, (2 ^ 32 - 1 + 1) % 2 ^ 32)

-- `pool_[index]`, after the assert that it is an element.
unfoldable pub pick : EventLoopContext → ℕ × ℕ → Option (ℤ × EventLoopContext)
pick c (index, next) = do
  assert (ltb index (2 ^ 31) && ltb index (length c.pool))
  worker ← get_elem? c.pool index
  some (worker, record c { next_pool = next })

unfoldable pub alloc_worker_index : EventLoopContext → Option (ℤ × EventLoopContext)
unfolding get_and_add to_size size_mod wrap_around pick
alloc_worker_index c = do
  remainder ← size_mod (to_size (get_and_add c.next_pool).0) (length c.pool)
  pick c (wrap_around (remainder % 2 ^ 32) (get_and_add c.next_pool).1)
