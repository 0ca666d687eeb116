-- ===== src/Gate/Entities/History.antt =====
-- Framework/game_gate/Entities.h, `STR::Entities`: what a history of calls leaves. The abstract
-- view is the function from a session to the weak pointer, null where there is none.
use cppserver.Prelude.{
  ◌≡◌, refl, Bool, false, List, [], ◌∷◌, Option, some, none, String, ◌>>=◌, if◌then◌else◌, arith,
  ◌∙◌, Option-cases, inl, inr,
}
use mathlib.Core.Option.{some-injective}
use cppserver.Prelude.Maps.{string_key, insert}
use cppserver.Gate.World.{Weak}
use cppserver.Gate.Entities.{ConnMap, add, get, remove}
use cppserver.Gate.Entities.Delivery.{get-add, get-remove}

pub data Call : Type 0 where
  adds : String → Weak → Call
  removes : String → Call

unfoldable pub step : Bool → Call → ConnMap → Option ConnMap
step debug (adds s c) m = add debug s c m
step debug (removes s) m = some (remove s m)

unfoldable pub run : Bool → List Call → ConnMap → Option ConnMap
run debug [] m = some m
run debug (c ∷ cs) m = do m1 ← step debug c m; run debug cs m1

unfoldable pub view_step : Call → (String → Weak) → String → Weak
view_step (adds s c) v j = if string_key.beq s j then c else v j
view_step (removes s) v j = if string_key.beq s j then none else v j

unfoldable pub view_run : List Call → (String → Weak) → String → Weak
view_run [] v j = v j
view_run (c ∷ cs) v j = view_run cs (view_step c v) j

step-view :
    (debug : Bool) (c : Call) (m m' : ConnMap)
    → step debug c m ≡ some m'
    → (j : String) → get j m' ≡ view_step c (λ s. get s m) j
unfolding step view_step
step-view debug (adds s c) m m' e j = get-add debug j s c m m' e
step-view debug (removes s) m m' e j = ground (arith, get-remove j s m)

-- Whatever calls of add and remove of STR::Entities a build carries out without an abort, each
-- session's pointer is what the abstract calls give: add sets it and remove clears it.
pub get-run_peers :
    (debug : Bool) (cs : List Call) (m m' : ConnMap)
    → run debug cs m ≡ some m'
    → (j : String) → get j m' ≡ view_run cs (λ s. get s m) j
unfolding run view_run
get-run_peers debug [] m m' e j = rw (some-injective m m' e) refl
get-run_peers debug (c ∷ cs) m m' e j = elim (Option-cases (step debug c m)) [
  | inl failed ↦ absurd (ground (arith, failed))
  | inr (m1, done) ↦
      let ran : run debug cs m1 ≡ some m' = ground (arith, done) in
      get-run_peers debug cs m1 m' ran j ∙ λ i. view_run cs (λ k. step-view debug c m m1 done k i) j
]

-- A release build carries out every history of calls.
pub run-total : (cs : List Call) (m : ConnMap) → (m' : ConnMap) × (run false cs m ≡ some m')
unfolding run step add
run-total [] m = (m, refl)
run-total (adds s c ∷ cs) m = run-total cs (insert s c m)
run-total (removes s ∷ cs) m = run-total cs (remove s m)
