-- ===== src/Mongo/Ownership.antt =====
-- thirdpart/MongoDB/MongoDBClient.h: clients and threads as long as nobody calls `reset`.
use cppserver.Prelude.{
  if◌then◌else◌, Bool-cases, ℕ, ◌≡◌, refl, Bool, true, false, List, [], ◌∷◌, Option, none, some,
  String, ◌>>=◌, Option-cases, ==_iff, inl, inr,
}
use cppserver.Mongo.{
  Clients, Ending, returned, thrown, set_uri, set_option, set, set_value, instance_of, destructor,
  end_thread,
}
use cppserver.Mongo.Invariant.{
  IsOwned, made, freed, quiet, made-IsOwned, freed-IsOwned, quiet-IsOwned, uri-IsOwned,
  option-IsOwned,
}

pub data Event : Type 0 where
  calls : ℕ → Event
  ends : ℕ → Event
  sets_uri : String → Event
  sets_option : ℕ → Event

-- What a call of `instance` answers; the other events answer nothing.
module _ (accepts : String → ℕ → Bool) (debug : Bool) where
  unfoldable pub step : Event → Clients → Option (Option (Ending ℕ) × Clients)
  step (calls t) s = do r ← instance_of accepts debug t s; some (some r.0, r.1)
  step (ends t) s = do s1 ← end_thread debug t s; some (none, s1)
  step (sets_uri url) s = some (none, set_uri url s)
  step (sets_option options) s = some (none, set_option options s)

  unfoldable pub run : List Event → Clients → Option (List (Option (Ending ℕ)) × Clients)
  unfolding step
  run [] s = some ([], s)
  run (e ∷ es) s = do r ← step e s; rest ← run es r.1; some (r.0 ∷ rest.0, rest.1)

end_thread-freed :
    (debug : Bool) (t o : ℕ) (s : Clients)
    → s.value t ≡ some o
    → IsOwned s
    → end_thread debug t s ≡ some (freed t o s)
unfolding end_thread destructor
end_thread-freed true t o s h w = simp (w.key_exists, w.slots t, h, (==_iff o o).1 refl)
end_thread-freed false t o s h w = simp (w.key_exists, w.slots t, h)

end_thread-quiet :
    (debug : Bool) (t : ℕ) (s : Clients)
    → s.value t ≡ none
    → IsOwned s
    → end_thread debug t s ≡ some (quiet t s)
unfolding end_thread destructor
end_thread-quiet debug t s h w = simp (w.key_exists, w.slots t, h)

-- What instance answers a thread: its client, or a new one if the driver makes it.
unfoldable pub answer : (String → ℕ → Bool) → Clients → Event → Option (Ending ℕ)
answer accepts s (calls t) = some (elim (s.value t) [
  | some o ↦ returned o
  | none ↦ if accepts s.uri s.options then returned s.next else thrown
])
answer accepts s _ = none

module _ (accepts : String → ℕ → Bool) (debug : Bool) where
  calls-made :
      (t : ℕ) (s : Clients)
      → s.value t ≡ none
      → accepts s.uri s.options ≡ true
      → IsOwned s
      → instance_of accepts debug t s ≡ some (returned s.next, made t s)
  unfolding instance_of set_value set
  calls-made t s h good w = elim (Bool-cases debug) [
    | inl checked ↦
        simp
          (instance_of, set_value, h, good, checked, w.key_exists, w.slots t, (==_iff t t).1 refl)
    | inr free ↦
        simp (instance_of, set_value, h, good, free, w.key_exists, w.slots t, (==_iff t t).1 refl)
  ]

  calls-thrown :
      (t : ℕ) (s : Clients)
      → s.value t ≡ none
      → accepts s.uri s.options ≡ false
      → instance_of accepts debug t s ≡ some (thrown, s)
  unfolding instance_of set_value
  calls-thrown t s h bad = simp (instance_of, set_value, h, bad)

  calls-some :
      (t o : ℕ) (s : Clients)
      → s.value t ≡ some o
      → instance_of accepts debug t s ≡ some (returned o, s)
  unfolding instance_of
  calls-some t o s h = rw (instance_of, h) refl

  step-IsOwned :
      (e : Event) (s : Clients)
      → IsOwned s
      → (s1 : Clients) × (step accepts debug e s ≡ some (answer accepts s e, s1)) × IsOwned s1
  unfolding step answer
  step-IsOwned (calls t) s w = elim (Option-cases (s.value t)) [
    | inl n ↦ elim (Bool-cases (accepts s.uri s.options)) [
      | inl good ↦ (made t s, rw (calls-made t s n good w, n, good) refl, made-IsOwned t s n w)
      | inr bad ↦ (s, rw (calls-thrown t s n bad, n, bad) refl, w)
    ]
    | inr (o, e) ↦ (s, rw (calls-some t o s e, e) refl, w)
  ]
  step-IsOwned (ends t) s w = elim (Option-cases (s.value t)) [
    | inl n ↦ (quiet t s, rw (end_thread-quiet debug t s n w) refl, quiet-IsOwned t s n w)
    | inr (o, e) ↦
        (freed t o s, rw (end_thread-freed debug t o s e w) refl, freed-IsOwned t o s e w)
  ]
  step-IsOwned (sets_uri url) s w = (set_uri url s, refl, uri-IsOwned url s w)
  step-IsOwned (sets_option options) s w = (set_option options s, refl, option-IsOwned options s w)

  -- Start where the key exists, the clients that are alive are exactly those that a thread holds,
  -- no client is held by two threads, and each thread has its client under the key. Then any
  -- calls of instance, setUri and setOption and any ends of threads have defined behaviour, in a
  -- debug build too, as long as nobody calls reset, and it is so again. Each call of instance
  -- returns or throws what the driver throws. One more call gives a thread its client, or a new
  -- one if the driver takes the uri and the options then set, and throws otherwise.
  pub run-IsOwned :
      (es : List Event) (t : ℕ) (s : Clients)
      → IsOwned s
      → (r : List (Option (Ending ℕ)) × Clients) × (run accepts debug es s ≡ some r)
        × IsOwned r.1
        × ((s1 : Clients) × (step accepts debug (calls t) r.1
              ≡ some (answer accepts r.1 (calls t), s1))
            × IsOwned s1)
  unfolding run
  run-IsOwned [] t s w = (([], s), refl, w, step-IsOwned (calls t) s w)
  run-IsOwned (e ∷ es) t s w =
      let (s1, stepped, w1) = step-IsOwned e s w in
      let (r, ran, w2, next) = run-IsOwned es t s1 w1 in
      ((answer accepts s e ∷ r.0, r.1), rw (stepped, ran) refl, w2, next)
