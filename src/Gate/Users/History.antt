-- ===== src/Gate/Users/History.antt =====
-- Framework/game_gate/Entities.h, `INT::Entities`: what a history of calls leaves. The abstract
-- view is the function from a user to the weak pointer, null where there is none.
use cppserver.Prelude.{
  ℕ, ◌≡◌, refl, Bool, false, List, [], ◌∷◌, Option, some, none, String, ◌&&◌, ◌>>=◌, if◌then◌else◌,
  arith, ◌∙◌, Option-cases, inl, inr,
}
use cppserver.Prelude.Int.{ℤ}
use cppserver.Prelude.Maps.{ℤ_key}
use cppserver.Gate.World.{World, Weak, lock}
use cppserver.Gate.Users.{ConnMap, add, get, same_ptr, remove_conn, remove_session}
use cppserver.Gate.Users.Registry.{
  get-add, get-remove_conn, get-remove_session, is_stale, remove_conn-eq-none,
}

-- Each call with the connections as they are at that time.
pub data Call : Type 0 where
  adds : ℤ → Weak → Call
  removes_conn : World → ℤ → ℕ → Call
  removes_session : World → ℤ → String → Call

unfoldable pub step : Bool → Call → ConnMap → Option ConnMap
step debug (adds u c) m = some (add u c m).0
step debug (removes_conn w u c) m = remove_conn debug w u (some c) m
step debug (removes_session w u s) m = some (remove_session w u s m)

unfoldable pub run : Bool → List Call → ConnMap → Option ConnMap
run debug [] m = some m
run debug (c ∷ cs) m = do m1 ← step debug c m; run debug cs m1

unfoldable pub view_step : Call → (ℤ → Weak) → ℤ → Weak
view_step (adds u c) v j = if ℤ_key.beq u j then c else v j
view_step (removes_conn w u c) v j =
    if ℤ_key.beq u j && same_ptr (lock w (v u)) (some c) then none else v j
view_step (removes_session w u s) v j = if ℤ_key.beq u j && is_stale w s (v u) then none else v j

unfoldable pub view_run : List Call → (ℤ → Weak) → ℤ → Weak
view_run [] v j = v j
view_run (c ∷ cs) v j = view_run cs (view_step c v) j

-- A release build carries out every call, and to the view it does what the abstract call does.
step-view :
    (c : Call) (m : ConnMap)
    → (m' : ConnMap) × (step false c m ≡ some m')
      × ((j : ℤ) → get j m' ≡ view_step c (λ u. get u m) j)
unfolding step view_step
step-view (adds u c) m = ((add u c m).0, refl, λ j. (get-add j u c m).1)
step-view (removes_session w u s) m =
    (remove_session w u s m, refl, λ j. get-remove_session w j u s m)
step-view (removes_conn w u c) m = elim (Option-cases (remove_conn false w u (some c) m)) [
  | inl failed ↦ absurd (ground (arith, (remove_conn-eq-none false w u (some c) m).0 failed))
  | inr (m', done) ↦ (m', done, λ j. get-remove_conn false w j u c m m' done)
]

-- In a release build, after any calls of add and the two remove of INT::Entities, none fails, and
-- each user's pointer is what the abstract calls give: add sets it, remove by a connection clears
-- it if it is that live connection, remove by a session if its connection is gone or holds the
-- session.
pub get-run_users :
    (cs : List Call) (m : ConnMap)
    → (m' : ConnMap) × (run false cs m ≡ some m')
      × ((j : ℤ) → get j m' ≡ view_run cs (λ u. get u m) j)
unfolding run view_run
get-run_users [] m = (m, refl, λ j. refl)
get-run_users (c ∷ cs) m =
    let (m1, done, seen) = step-view c m in
    let (m', ran, rest) = get-run_users cs m1 in
    (m', rw done ran, λ j. rest j ∙ λ i. view_run cs (λ k. seen k i) j)
