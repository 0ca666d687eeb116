-- ===== src/Gate/Sessions.antt =====
-- Framework/game_gate/Entities.h, `INT::Sessions`: the session of each user.
pub mod Registry
pub mod History
use cppserver.Prelude.{List, Option, none, some, String, if◌then◌else◌}
use cppserver.Prelude.Int.{ℤ}
use cppserver.Prelude.Maps.{lookup, insert, erase, string_key, ℤ_key}

abbrev pub SessionMap : Type 0
SessionMap = List (ℤ × String)

-- The new map, and the old session, the empty text if there was none.
unfoldable pub add : ℤ → String → SessionMap → SessionMap × String
add userid session sessions = elim (lookup userid sessions) [
  | none ↦ (insert userid session sessions, "")
  | some old ↦ (insert userid session (erase userid sessions), old)
]

unfoldable pub get : ℤ → SessionMap → String
get userid sessions = elim (lookup userid sessions) [ none ↦ "" | some session ↦ session ]

unfoldable pub remove : ℤ → String → SessionMap → SessionMap
remove userid session sessions = elim (lookup userid sessions) [
  | none ↦ sessions
  | some held ↦ if string_key.beq held session then erase userid sessions else sessions
]
