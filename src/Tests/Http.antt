-- ===== src/Tests/Http.antt =====
-- Tests of the models of thirdpart/https/ApiServer.h.
use cppserver.Prelude.{◌≡◌, refl, true, false, List, [], ◌∷◌, none, some, ltb, arith}
use cppserver.Prelude.Int.{pos}
use cppserver.Gate.World.{World}
use cppserver.Gate.Buckets.{Loop, held}
use cppserver.Gate.Buckets.Timeout.{Event, ticks, pushes, age}
use cppserver.Api.{ConnBucket, init_bucket, EventLoopContext}
use cppserver.Api.Timeout.{run, held_api-run}

abbrev all_alive : World
all_alive = record { alive = λ c. true; session = λ c. "" }

abbrev nobody : World
nobody = record { alive = λ c. false; session = λ c. "" }

abbrev events : List (World × Event)
events = (all_alive, pushes (some 1)) ∷ (nobody, ticks) ∷ (nobody, ticks) ∷ []

abbrev http_loop : Loop
http_loop = record { debug = true; world = all_alive; weak_conn = λ e. some e; on_loop = λ c. true }

held_api-run_example :
    (b : ConnBucket) × (run http_loop events (init_bucket (pos 0) 2) ≡ some b)
    × (held 1 b.buckets
        ≡ elim (age http_loop 1 events none) [ none ↦ false | some ticked ↦ ltb ticked 2 ])
held_api-run_example = held_api-run http_loop 1 events (pos 0) 2 (λ c. refl) (omega arith)

abbrev loop_context : EventLoopContext
loop_context = record { index = pos 0; pool = pos 4 ∷ pos 5 ∷ []; next_pool = 3 }
