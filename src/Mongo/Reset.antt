-- ===== src/Mongo/Reset.antt =====
-- thirdpart/MongoDB/MongoDBClient.h, `reset`: the thread's client is left behind, and no other
-- client can be made.
use cppserver.Prelude.{
  ℕ, ◌≡◌, ◌≢◌, refl, Bool, false, Bool-cases, inl, inr, if◌then◌else◌, some, none, String,
}
use cppserver.Mongo.{Clients, thrown, put, set, set_value, instance_of, reset}
use cppserver.Mongo.Invariant.{IsOwned, put_hit, put-old}

-- The state after the key was deleted and the pointer of a thread was set to null.
abbrev left : ℕ → Clients → Clients
left t s = record s { key = false; value = put t none s.value }

instance_of-undefined :
    (accepts : String → ℕ → Bool) (debug : Bool) (u : ℕ) (s : Clients)
    → s.key ≡ false
    → s.value u ≡ none
    → instance_of accepts debug u s ≡ (if accepts s.uri s.options then none else some (thrown, s))
unfolding instance_of set_value set
instance_of-undefined accepts debug u s k n = elim (Bool-cases (accepts s.uri s.options)) [
  | inl good ↦ simp (instance_of, set_value, k, n, good)
  | inr bad ↦ simp (instance_of, set_value, k, n, bad)
]

-- Where the clients that are alive are those that a thread holds, none by two threads, and the
-- key exists: a thread with a client that calls reset leaves the client alive with no thread that
-- holds it, and has none itself; a thread without a client that calls instance afterwards uses
-- the deleted key, unless the driver refuses the uri and the options first, which it throws.
pub reset-leaks :
    (accepts : String → ℕ → Bool) (debug : Bool) (t o : ℕ) (s : Clients)
    → IsOwned s
    → s.value t ≡ some o
    → (s1 : Clients) × (reset t s ≡ some s1)
      × ((url : String × ℕ) × (s1.live o ≡ some url))
      × ((u : ℕ) → s1.value u ≢ some o)
      × ((u : ℕ)
          → s1.value u ≡ none
          → instance_of accepts debug u s1
            ≡ (if accepts s1.uri s1.options then none else some (thrown, s1)))
      × (s1.value t ≡ none)
unfolding reset
reset-leaks accepts debug t o s w h = (
  left t s,
  simp (w.key_exists),
  w.alive t o h,
  (λ u k. let old = put-old t s.value u o k in old.0 (w.alone t u o h old.1)),
  (λ u n. instance_of-undefined accepts debug u (left t s) refl n),
  put_hit t none s.value,
)
