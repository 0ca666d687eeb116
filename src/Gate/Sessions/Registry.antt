-- ===== src/Gate/Sessions/Registry.antt =====
-- Framework/game_gate/Entities.h, `INT::Sessions`: what a user's session is after each operation.
use cppserver.Prelude.{◌≡◌, ◌&&◌, String, arith, if◌then◌else◌}
use cppserver.Prelude.Int.{ℤ}
use cppserver.Prelude.Maps.{erase, string_key, ℤ_key, beq_ℤ_iff, lookup-insert, lookup-erase}
use cppserver.Gate.Sessions.{SessionMap, add, get, remove}

-- `add` returns the session that it replaces, and changes that of its user alone.
pub get-add :
    (j u : ℤ) (s : String) (m : SessionMap)
    → ((add u s m).1 ≡ get u m) × (get j (add u s m).0 ≡ (if ℤ_key.beq u j then s else get j m))
unfolding add get
get-add j u s m = ground (
  arith,
  lookup-insert j u s m,
  lookup-insert j u s (erase u m),
  beq_ℤ_iff u j,
  lookup-erase j u m,
)

-- `remove` takes the user's session out if it is still the one that is given, and nothing else.
pub get-remove :
    (j u : ℤ) (s : String) (m : SessionMap)
    → get j (remove u s m) ≡ (if ℤ_key.beq u j && string_key.beq (get u m) s then "" else get j m)
unfolding remove get
get-remove j u s m = ground (arith, lookup-erase j u m, beq_ℤ_iff u j)
