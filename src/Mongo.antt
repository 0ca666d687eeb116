-- ===== src/Mongo.antt =====
-- thirdpart/MongoDB/MongoDBClient.h, `ThreadLocalSingleton`: one database client for each thread,
-- freed by the destructor of a thread-specific key when the thread ends. A thread is a number,
-- and so is a client; the use of a deleted key is undefined (POSIX), which is `none`. The driver
-- is a library: `accepts` says of which uri and options it makes a client; of others its
-- constructors throw.
pub mod Invariant
pub mod Ownership
pub mod Reset
use cppserver.Prelude.{
  ℕ, ◌+◌, ◌==◌, Bool, true, false, not, ◌||◌, List, [], ◌∷◌, Option, none, some, String, assert,
  ◌>>=◌, ◌>>◌, if◌then◌else◌,
}

-- `value` is the `__thread` pointer `s_value_`, `slot` what the thread has under `pkey_`, and
-- `key` says whether that key, which all threads share, exists. `live` is the heap: each client
-- that was not deleted, with the uri and the options it was made of; `next` is the next one to be
-- allocated.
pub record Clients : Type 0 where
  pub key : Bool
  pub value : ℕ → Option ℕ
  pub slot : ℕ → Option ℕ
  pub live : ℕ → Option (String × ℕ)
  pub next : ℕ
  pub uri : String
  pub options : ℕ

abbrev pub put {ℓ} : {A : Type ℓ} → ℕ → A → (ℕ → A) → ℕ → A
put t v f u = if t == u then v else f u

-- The key is made by the constructor of the static `s_deleter_`.
unfoldable pub init : Clients
init = record {
  key = true;
  value = λ _. none;
  slot = λ _. none;
  live = λ _. none;
  next = 0;
  uri = "";
  options = 0;
}

abbrev pub is_null {ℓ} : {A : Type ℓ} → Option A → Bool
is_null none = true
is_null (some _) = false

abbrev pub points_to : Option ℕ → ℕ → Bool
points_to none o = false
points_to (some v) o = v == o

unfoldable pub set_uri : String → Clients → Clients
set_uri url s = record s { uri = url }

unfoldable pub set_option : ℕ → Clients → Clients
set_option options s = record s { options = options }

-- `Deleter::set`.
unfoldable pub set : Bool → ℕ → ℕ → Clients → Option Clients
set debug t o s = do
  assert s.key
  assert (not debug || is_null (s.slot t))
  some (record s { slot = put t (some o) s.slot })

-- How a call ends: by a return, or by the exception that the driver throws.
pub data Ending (A : Type 0) : Type 0 where
  returned : A → Ending A
  thrown : Ending A

-- Where the driver throws, `new` frees what it allocated, and `s_value_` is not written.
module _ (accepts : String → ℕ → Bool) (debug : Bool) where
  unfoldable pub set_value : ℕ → Clients → Option (Ending Unit × Clients)
  unfolding set
  set_value t s = elim (s.value t) [
    | some o ↦ some (returned tt, s)
    | none ↦
        if accepts s.uri s.options
        then (do
          s1 ← set debug t s.next (record s {
            value = put t (some s.next) s.value;
            live = put s.next (some (s.uri, s.options)) s.live;
            next = s.next + 1;
          })
          some (returned tt, s1))
        else some (thrown, s)
  ]

  -- The client, and what the call leaves; a null pointer is not followed.
  unfoldable pub instance_of : ℕ → Clients → Option (Ending ℕ × Clients)
  unfolding set_value
  instance_of t s = elim (s.value t) [
    | some o ↦ some (returned o, s)
    | none ↦ do
      r ← set_value t s
      elim r.0 [
        | thrown ↦ some (thrown, r.1)
        | returned _ ↦ do o ← r.1.value t; some (returned o, r.1)
      ]
  ]

-- `delete` of a null pointer does nothing.
unfoldable pub destructor : Bool → ℕ → ℕ → Clients → Option Clients
destructor debug t o s = do
  assert (not debug || points_to (s.value t) o)
  some (elim (s.value t) [
    | none ↦ s
    | some v ↦ record s { value = put t none s.value; live = put v none s.live }
  ])

-- What the threads library does when a thread ends: it calls the destructor of a key that exists
-- with the thread's value, if that is not null. The thread's own pointer ends with it.
unfoldable pub end_thread : Bool → ℕ → Clients → Option Clients
end_thread debug t s = do
  s1 ←
      if s.key
      then elim (s.slot t) [
        | none ↦ some s
        | some o ↦ destructor debug t o (record s { slot = put t none s.slot })
      ]
      else some s
  some (record s1 { value = put t none s1.value })

-- `s_deleter_.reset(); s_value_ = 0;`: the key is deleted for all threads, and nothing is freed.
unfoldable pub reset : ℕ → Clients → Option Clients
reset t s = do assert s.key; some (record s { key = false; value = put t none s.value })
