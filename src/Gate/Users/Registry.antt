-- ===== src/Gate/Users/Registry.antt =====
-- Framework/game_gate/Entities.h, `INT::Entities`: what a user's entry is after each operation.
use cppserver.Prelude.{
  ℕ, ◌≡◌, ◌≢◌, ◌↔◌, Bool, true, ◌&&◌, Option, none, some, String, arith, if◌then◌else◌,
}
use cppserver.Prelude.Int.{ℤ}
use cppserver.Prelude.Maps.{
  lookup, contains, erase, string_key, ℤ_key, beq_ℤ_iff, lookup-insert, lookup-erase,
  lookup-insert_self,
}
use cppserver.Gate.World.{World, Weak, lock}
use cppserver.Gate.Users.{ConnMap, add, get, same_ptr, remove_conn, remove_session}

-- `add` returns the pointer that it replaces, and changes the entry of its user alone.
pub get-add :
    (j u : ℤ) (c : Weak) (m : ConnMap)
    → ((add u c m).1 ≡ get u m) × (get j (add u c m).0 ≡ (if ℤ_key.beq u j then c else get j m))
unfolding add get
get-add j u c m = ground (
  arith,
  lookup-insert j u c m,
  lookup-insert j u c (erase u m),
  beq_ℤ_iff u j,
  lookup-erase j u m,
)

-- `remove(userid, conn)` takes the entry out if it is that live connection, and nothing else.
pub get-remove_conn :
    (debug : Bool) (w : World) (j u : ℤ) (c : ℕ) (m m' : ConnMap)
    → remove_conn debug w u (some c) m ≡ some m'
    → get j m' ≡ (if ℤ_key.beq u j && same_ptr (lock w (get u m)) (some c) then none else get j m)
unfolding remove_conn get
get-remove_conn debug w j u c m m' e = ground (arith, lookup-erase j u m, beq_ℤ_iff u j)

-- remove by a connection aborts exactly in a debug build where the user has an entry whose
-- connection is gone.
pub remove_conn-eq-none :
    (debug : Bool) (w : World) (u : ℤ) (conn : Option ℕ) (m : ConnMap)
    → (remove_conn debug w u conn m ≡ none)
      ↔ ((debug ≡ true) × (contains u m ≡ true) × (lock w (get u m) ≡ none))
unfolding remove_conn get contains
remove_conn-eq-none debug w u conn m = ground arith

-- The connection is gone, or its context holds the session.
abbrev pub is_stale : World → String → Weak → Bool
is_stale w s c = elim (lock w c) [ none ↦ true | some peer ↦ string_key.beq (w.session peer) s ]

-- `remove(userid, session)` takes the entry out if its connection is gone or holds the session.
pub get-remove_session :
    (w : World) (j u : ℤ) (s : String) (m : ConnMap)
    → get j (remove_session w u s m)
      ≡ (if ℤ_key.beq u j && is_stale w s (get u m) then none else get j m)
unfolding remove_session get
get-remove_session w j u s m = ground (arith, lookup-erase j u m, beq_ℤ_iff u j)

lookup-add_self : (u : ℤ) (c : Weak) (m : ConnMap) → lookup u (add u c m).0 ≡ some c
unfolding add
lookup-add_self u c m = ground (arith, lookup-insert_self u c m, lookup-insert_self u c (erase u m))

-- A user who is connected again, by another connection that is alive and has another session,
-- keeps it when the old one goes away: neither remove by the old connection nor by the old
-- session touches the new entry, or aborts.
pub reconnect_kept :
    (debug : Bool) (w : World) (u : ℤ) (old new : ℕ) (s : String) (m : ConnMap)
    → old ≢ new
    → w.alive new ≡ true
    → w.session new ≢ s
    → (remove_conn debug w u (some old) (add u (some new) m).0 ≡ some (add u (some new) m).0)
      × (remove_session w u s (add u (some new) m).0 ≡ (add u (some new) m).0)
      × (get u (add u (some new) m).0 ≡ some new)
unfolding remove_conn remove_session get lock
reconnect_kept debug w u old new s m apart live other =
    rw (lookup-add_self u (some new) m, remove_conn, remove_session, get)
      (ground (arith, string_key.beq_iff (w.session new) s))
