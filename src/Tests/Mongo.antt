-- ===== src/Tests/Mongo.antt =====
-- Tests of the model of thirdpart/MongoDB/MongoDBClient.h.
use mathlib.Core.Option.{some-injective}
use cppserver.Prelude.Maps.{string_key}
use cppserver.Prelude.{
  Bool, false, List, Option, if◌then◌else◌, ℕ, ◌≡◌, ◌≢◌, refl, sym, subst, ◌∙◌, true, [], ◌∷◌, none,
  some, String,
}
use cppserver.Mongo.{
  Clients, Ending, returned, thrown, set_uri, init, put, set, set_value, instance_of, reset,
}
use cppserver.Mongo.Invariant.{IsOwned, init-IsOwned}
use cppserver.Mongo.Ownership.{Event, answer, calls, ends, sets_uri, step, run, run-IsOwned}
use cppserver.Mongo.Reset.{reset-leaks}

-- The driver takes the uris but the empty one.
abbrev accepts : String → ℕ → Bool
accepts uri options = if string_key.beq uri "" then false else true

-- Thread 3 is refused, then gets a client, and so does thread 4, which ends.
abbrev events : List Event
events = calls 3 ∷ sets_uri "mongodb://db" ∷ calls 3 ∷ calls 4 ∷ ends 4 ∷ calls 3 ∷ []

run-IsOwned_example :
    (r : List (Option (Ending ℕ)) × Clients) × (run accepts true events init ≡ some r)
    × IsOwned r.1
    × ((s1 : Clients) × (step accepts true (calls 5) r.1 ≡ some (answer accepts r.1 (calls 5), s1))
        × IsOwned s1)
run-IsOwned_example = run-IsOwned accepts true events 5 init init-IsOwned

-- Thread 3 has client 0.
abbrev one : Clients
one = record {
  key = true;
  value = put 3 (some 0) (λ _. none);
  slot = put 3 (some 0) (λ _. none);
  live = put 0 (some ("db", 0)) (λ _. none);
  next = 1;
  uri = "db";
  options = 0;
}

called :
    run accepts true (sets_uri "db" ∷ calls 3 ∷ []) init ≡ some (none ∷ some (returned 0) ∷ [], one)
unfolding run step instance_of set_value set init set_uri
called = refl

-- Without a uri the driver throws, and nothing changes.
refused : run accepts true (calls 3 ∷ []) init ≡ some (some thrown ∷ [], init)
unfolding run step instance_of set_value init
refused = refl

one-IsOwned : IsOwned one
one-IsOwned =
    let (r, ran, w, _) =
      run-IsOwned accepts true (sets_uri "db" ∷ calls 3 ∷ []) 3 init init-IsOwned in
    subst (λ (q : List (Option (Ending ℕ)) × Clients). IsOwned q.1)
      (some-injective r (none ∷ some (returned 0) ∷ [], one) (sym ran ∙ called)) w

reset-leaks_example :
    (s1 : Clients) × (reset 3 one ≡ some s1)
    × ((url : String × ℕ) × (s1.live 0 ≡ some url))
    × ((u : ℕ) → s1.value u ≢ some 0)
    × ((u : ℕ)
        → s1.value u ≡ none
        → instance_of accepts true u s1
          ≡ (if accepts s1.uri s1.options then none else some (thrown, s1)))
    × (s1.value 3 ≡ none)
reset-leaks_example = reset-leaks accepts true 3 0 one one-IsOwned refl
