-- ===== src/Gate/Sessions/History.antt =====
-- Framework/game_gate/Entities.h, `INT::Sessions`: what a history of calls leaves. The abstract
-- view is the function from a user to the session, the empty text where there is none.
use cppserver.Prelude.{◌≡◌, refl, List, [], ◌∷◌, String, ◌&&◌, if◌then◌else◌, ◌∙◌}
use cppserver.Prelude.Int.{ℤ}
use cppserver.Prelude.Maps.{string_key, ℤ_key}
use cppserver.Gate.Sessions.{SessionMap, add, get, remove}
use cppserver.Gate.Sessions.Registry.{get-add, get-remove}

pub data Call : Type 0 where
  adds : ℤ → String → Call
  removes : ℤ → String → Call

unfoldable pub step : Call → SessionMap → SessionMap
step (adds u s) m = (add u s m).0
step (removes u s) m = remove u s m

unfoldable pub run : List Call → SessionMap → SessionMap
run [] m = m
run (c ∷ cs) m = run cs (step c m)

unfoldable pub view_step : Call → (ℤ → String) → ℤ → String
view_step (adds u s) v j = if ℤ_key.beq u j then s else v j
view_step (removes u s) v j = if ℤ_key.beq u j && string_key.beq (v u) s then "" else v j

unfoldable pub view_run : List Call → (ℤ → String) → ℤ → String
view_run [] v j = v j
view_run (c ∷ cs) v j = view_run cs (view_step c v) j

get-step : (c : Call) (m : SessionMap) (j : ℤ) → get j (step c m) ≡ view_step c (λ u. get u m) j
unfolding step view_step
get-step (adds u s) m j = (get-add j u s m).1
get-step (removes u s) m j = get-remove j u s m

view_run-congr :
    (cs : List Call) (v v' : ℤ → String)
    → ((j : ℤ) → v j ≡ v' j)
    → (j : ℤ) → view_run cs v j ≡ view_run cs v' j
view_run-congr cs v v' h j = λ i. view_run cs (λ k. h k i) j

-- After any calls of add and remove of INT::Sessions, in any order and on any table, each user's
-- session is what the abstract calls give: add sets the session of its user, and remove clears
-- the session of its user if it is still the one that is given.
pub get-run_sessions :
    (cs : List Call) (m : SessionMap) (j : ℤ) → get j (run cs m) ≡ view_run cs (λ u. get u m) j
unfolding run view_run
get-run_sessions [] m j = refl
get-run_sessions (c ∷ cs) m j =
    get-run_sessions cs (step c m) j ∙ view_run-congr cs _ _ (λ k. get-step c m k) j
