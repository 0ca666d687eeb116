-- ===== src/Gate/Entities.antt =====
-- Framework/game_gate/Entities.h, `STR::Entities`: the connections by their session.
pub mod Delivery
pub mod History
use cppserver.Prelude.{
  ℕ, Bool, not, ◌||◌, List, [], ◌∷◌, Option, none, some, String, assert, ◌>>=◌, ◌>>◌,
}
use cppserver.Prelude.Maps.{lookup, insert, erase, contains, string_key}
use cppserver.Gate.World.{World, Weak, lock}

abbrev pub ConnMap : Type 0
ConnMap = List (String × Weak)

-- The check is compiled in unless `NDEBUG` is defined.
unfoldable pub add : Bool → String → Weak → ConnMap → Option ConnMap
add debug session weak_conn peers = do
  assert (not debug || not (contains session peers))
  some (insert session weak_conn peers)

unfoldable pub get : String → ConnMap → Weak
get session peers = elim (lookup session peers) [ none ↦ none | some weak_conn ↦ weak_conn ]

-- One message that is handed to the websocket layer.
pub record Sent : Type 0 where
  pub peer : ℕ
  pub payload : List ℕ

unfoldable pub send_each {ℓ} : {K : Type ℓ} → World → List ℕ → List (K × Weak) → List Sent
send_each w buf [] = []
send_each w buf ((_, weak_conn) ∷ peers) = elim (lock w weak_conn) [
  | none ↦ send_each w buf peers
  | some peer ↦ record { peer = peer; payload = buf } ∷ send_each w buf peers
]

-- `none` for the buffer is a null pointer.
unfoldable pub broadcast {ℓ} :
    {K : Type ℓ} → World → Option (List ℕ) → List (K × Weak) → Option (List Sent)
broadcast w none peers = none
broadcast w (some buf) peers = some (send_each w buf peers)

unfoldable pub remove : String → ConnMap → ConnMap
remove session peers = elim (lookup session peers) [
  | none ↦ peers
  | some weak_conn ↦ erase session peers
]
