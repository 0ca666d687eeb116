-- ===== src/Guards.antt =====
-- The locks that are held for a scope: `CGuardLock` of thirdpart/RedisLock/redlock.h, `zkLockGuard`
-- of thirdpart/zookeeperclient/zookeeperclient.h, and `Mutex::Guard` of
-- thirdpart/Logger/src/lock/mutex.h. The services behind the first two have no bodies here: they
-- are parameters. `Code` is a program of nested scopes.
pub mod Red
pub mod Mutexes
use cppserver.Prelude.{
  ℕ, ◌==◌, Bool, true, false, not, ◌&&◌, List, [], ◌∷◌, Option, none, some, ◌>>=◌, String,
  if◌then◌else◌,
}
use cppserver.Prelude.Int.{ℤ}

-- `CRedLock`, with `CLock()`. A call gives its result, the CLock that it was passed, and the state
-- after it.
pub record RedLock (S L : Type 0) : Type 0 where
  pub fresh : L
  pub lock : String → ℤ → L → S → (Bool × L) × S
  pub continue_lock : String → ℤ → L → S → (Bool × L) × S
  pub unlock : L → S → S

pub record GuardLock (L : Type 0) : Type 0 where
  pub resource : String
  pub flag : Bool
  pub acquired : Bool
  pub lock : L

-- `CGuardLock { … }`, nested in the scope of others and followed by more.
pub data Code : Type 0 where
  done : Code
  guard : String → ℤ → Bool → Code → Code → Code

module _ {S L : Type 0} (r : RedLock S L) where
  unfoldable pub construct : String → ℤ → Bool → S → GuardLock L × S
  construct resource ttl acquired s =
      let a =
        if acquired
        then r.continue_lock resource ttl r.fresh s
        else r.lock resource ttl r.fresh s in
      (record { resource = resource; flag = a.0.0; acquired = acquired; lock = a.0.1 }, a.1)

  -- `~CGuardLock()`; what it logs is left out.
  unfoldable pub destruct : GuardLock L → S → S
  destruct g s = if g.flag && not g.acquired then r.unlock g.lock s else s

  unfoldable pub run : Code → S → S
  unfolding construct destruct
  run done s = s
  run (guard resource ttl acquired body rest) s =
      let g = construct resource ttl acquired s in run rest (destruct g.0 (run body g.1))

-- `ZookeeperClient`: the result code, and the state after the call.
pub record Zookeeper (S : Type 0) : Type 0 where
  pub create_node : String → String → Bool → S → ℤ × S
  pub delete_node : String → S → ℤ × S

pub record ZkLockGuard : Type 0 where
  pub path : String

module _ {S : Type 0} (z : Zookeeper S) where
  unfoldable pub zk_construct : String → String → S → ZkLockGuard × S
  zk_construct node_path value s =
      (record { path = node_path }, (z.create_node node_path value true s).1)

  unfoldable pub zk_destruct : ZkLockGuard → S → S
  zk_destruct g s = (z.delete_node g.path s).1

-- The mutexes that the thread has locked. A `std::mutex` that is locked twice by one thread, or
-- unlocked without being locked, is undefined.
unfoldable pub holds : ℕ → List ℕ → Bool
holds m [] = false
holds m (n ∷ held) = if n == m then true else holds m held

unfoldable pub release : ℕ → List ℕ → List ℕ
release m [] = []
release m (n ∷ held) = if n == m then held else n ∷ release m held

unfoldable pub mutex_lock : ℕ → List ℕ → Option (List ℕ)
unfolding holds
mutex_lock m held = if holds m held then none else some (m ∷ held)

unfoldable pub mutex_unlock : ℕ → List ℕ → Option (List ℕ)
unfolding holds release
mutex_unlock m held = if holds m held then some (release m held) else none

pub data Locked : Type 0 where
  finish : Locked
  scope : ℕ → Locked → Locked → Locked

-- `Mutex::Guard g(m);` around a body, with more after the scope.
unfoldable pub run_locked : Locked → List ℕ → Option (List ℕ)
unfolding mutex_lock mutex_unlock
run_locked finish held = some held
run_locked (scope m body rest) held = do
  inner ← mutex_lock m held
  after ← run_locked body inner
  outer ← mutex_unlock m after
  run_locked rest outer
