-- ===== src/Gate/Users.antt =====
-- Framework/game_gate/Entities.h, `INT::Entities`: the connections by the user's id.
pub mod Registry
pub mod History
use cppserver.Prelude.{
  ℕ, Bool, not, ◌||◌, List, Option, none, some, String, assert, ◌>>=◌, ◌>>◌, if◌then◌else◌, true,
  false, ◌==◌, is_some,
}
use cppserver.Prelude.Int.{ℤ}
use cppserver.Prelude.Maps.{lookup, insert, erase, string_key, ℤ_key}
use cppserver.Gate.World.{World, Weak, lock}

abbrev pub ConnMap : Type 0
ConnMap = List (ℤ × Weak)

-- The new map, and the pointer that was there.
unfoldable pub add : ℤ → Weak → ConnMap → ConnMap × Weak
add userid weak_conn peers = elim (lookup userid peers) [
  | none ↦ (insert userid weak_conn peers, none)
  | some old ↦ (insert userid weak_conn (erase userid peers), old)
]

unfoldable pub get : ℤ → ConnMap → Weak
get userid peers = elim (lookup userid peers) [ none ↦ none | some weak_conn ↦ weak_conn ]

-- Equality of two shared pointers, null among them.
unfoldable pub same_ptr : Option ℕ → Option ℕ → Bool
same_ptr none none = true
same_ptr (some a) (some b) = a == b
same_ptr _ _ = false

-- `remove(userid, conn)`. `none` is the failed `assert(peer)`, which `NDEBUG` takes out.
unfoldable pub remove_conn : Bool → World → ℤ → Option ℕ → ConnMap → Option ConnMap
unfolding same_ptr
remove_conn debug w userid conn peers = elim (lookup userid peers) [
  | none ↦ some peers
  | some weak_conn ↦ do
    assert (not debug || is_some (lock w weak_conn))
    some (if same_ptr (lock w weak_conn) conn then erase userid peers else peers)
]

-- `remove(userid, session)`: the entry goes if its connection is gone, or holds that session.
unfoldable pub remove_session : World → ℤ → String → ConnMap → ConnMap
remove_session w userid session peers = elim (lookup userid peers) [
  | none ↦ peers
  | some weak_conn ↦ elim (lock w weak_conn) [
    | none ↦ erase userid peers
    | some peer ↦ if string_key.beq (w.session peer) session then erase userid peers else peers
  ]
]
