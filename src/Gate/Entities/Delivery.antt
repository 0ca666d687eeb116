-- ===== src/Gate/Entities/Delivery.antt =====
-- Framework/game_gate/Entities.h, `STR::Entities`: registration, lookup and broadcast.
use cppserver.Prelude.{
  ℕ, ◌+◌, ◌≡◌, refl, ◌↔◌, Bool, true, List, [], ◌∷◌, none, some, String, arith, if◌then◌else◌, ◌==◌,
  All,
}
use cppserver.Prelude.Maps.{contains, string_key, lookup-insert, lookup-erase}
use cppserver.Gate.World.{World, Weak, lock}
use cppserver.Gate.Entities.{ConnMap, Sent, add, get, remove, send_each, broadcast}

-- add fails exactly in a debug build on a session that is there.
pub add-eq-none :
    (debug : Bool) (s : String) (c : Weak) (m : ConnMap)
    → (add debug s c m ≡ none) ↔ ((debug ≡ true) × (contains s m ≡ true))
unfolding add
add-eq-none debug s c m = ground arith

pub get-add :
    (debug : Bool) (j s : String) (c : Weak) (m m' : ConnMap)
    → add debug s c m ≡ some m'
    → get j m' ≡ (if string_key.beq s j then c else get j m)
unfolding add get
get-add debug j s c m m' e = ground (arith, lookup-insert j s c m)

pub get-remove :
    (j s : String) (m : ConnMap)
    → get j (remove s m) ≡ (if string_key.beq s j then none else get j m)
unfolding remove get
get-remove j s m = ground (arith, lookup-erase j s m, string_key.beq_iff s j)

-- How many of the messages go to the connection.
abbrev pub deliveries : ℕ → List Sent → ℕ
deliveries c [] = 0
deliveries c (s ∷ ss) = (if s.peer == c then 1 else 0) + deliveries c ss

-- How many keys point at the connection.
abbrev pub registrations {ℓ} : {K : Type ℓ} → ℕ → List (K × Weak) → ℕ
registrations c [] = 0
registrations c ((_, none) ∷ m) = registrations c m
registrations c ((_, some d) ∷ m) = (if d == c then 1 else 0) + registrations c m

module _ {ℓ} {K : Type ℓ} (w : World) (buf : List ℕ) where
  deliveries-send_each :
      (c : ℕ) (m : List (K × Weak))
      → deliveries c (send_each w buf m) ≡ (if w.alive c then registrations c m else 0)
  unfolding send_each lock
  deliveries-send_each c [] = ground arith
  deliveries-send_each c ((_, none) ∷ m) = deliveries-send_each c m
  deliveries-send_each c ((_, some d) ∷ m) = ground (arith, deliveries-send_each c m)

  payload-send_each : (m : List (K × Weak)) → All (λ s. s.payload ≡ buf) (send_each w buf m)
  unfolding send_each lock
  payload-send_each [] = tt
  payload-send_each ((_, none) ∷ m) = payload-send_each m
  payload-send_each ((_, some d) ∷ m) = ground (arith, payload-send_each m)

  -- A broadcast hands the buffer, unchanged, to every live connection as often as it is
  -- registered, and to no other.
  pub broadcast-deliveries :
      (m : List (K × Weak))
      → (ss : List Sent) × (broadcast w (some buf) m ≡ some ss)
        × All (λ s. s.payload ≡ buf) ss
        × ((c : ℕ) → deliveries c ss ≡ (if w.alive c then registrations c m else 0))
  unfolding broadcast
  broadcast-deliveries m =
      (send_each w buf m, refl, payload-send_each m, λ c. deliveries-send_each c m)
