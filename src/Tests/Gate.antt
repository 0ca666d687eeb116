-- ===== src/Tests/Gate.antt =====
-- Tests of the models of Framework/game_gate.
use cppserver.Prelude.{
  String, ℕ, ◌%◌, ◌<◌, ◌≡◌, refl, true, false, ◌==◌, List, [], ◌∷◌, none, some, if◌then◌else◌,
  length, get_elem?, All, ltb, ◌+◌, arith,
}
use cppserver.Prelude.Int.{ℤ, pos, negsuc}
use cppserver.Prelude.Maps.{string_key, ℤ_key, contains, lookup, insert, place, erase}
use cppserver.Gate.World.{World, Weak}
use cppserver.Gate.Buckets.{Loop, Buckets, init, held}
use cppserver.Gate.Buckets.Timeout.{Event, ticks, pushes, updates, run as run_wheel, age, held-run}
use cppserver.Gate.Entities.{ConnMap, Sent, broadcast}
use cppserver.Gate.Entities.Delivery.{deliveries, registrations, broadcast-deliveries}
use cppserver.Gate.Repair.{
  add as add_name, remove as remove_name, exist as exist_name, count as count_names,
}
use cppserver.Gate.Repair.Container.{
  Connector, Container, hall_ty, repair, recover, is_repairing, remaining, count as count_clients,
}
use cppserver.Gate.Repair.Service.{
  repairs, recovers, run as run_nodes, step as step_node, view, view_run, view_step, service-run,
}
use cppserver.Gate.Users.{add as add_user, get as get_user, remove_conn, remove_session}
use cppserver.Gate.Users.Registry.{reconnect_kept}
use cppserver.Gate.Users.History as UsersHistory
use cppserver.Gate.Sessions.History as SessionsHistory
use cppserver.Gate.Workers.Rotation.{picks, picks_in_turn}

-- Connection 1 is alive and connection 2 is gone.
abbrev world : World
world = record { alive = λ c. c == 1; session = λ c. if c == 1 then "new" else "old" }

abbrev wheel_loop : Loop
wheel_loop = record { debug = true; world = world; weak_conn = λ e. some e; on_loop = λ c. true }

-- Connection 1 is gone when its entry is updated.
abbrev lost : World
lost = record { alive = λ c. false; session = λ c. "" }

abbrev wheel_events : List (World × Event)
wheel_events =
    (world, pushes (some 1)) ∷ (world, ticks) ∷ (lost, updates (some 1)) ∷ (lost, ticks) ∷ []

held-run_example :
    (b : Buckets) × (run_wheel wheel_loop wheel_events (init 2 (pos 1)) ≡ some b)
    × (held 1 b.buckets
        ≡ elim (age wheel_loop 1 wheel_events none) [ none ↦ false | some ticked ↦ ltb ticked 2 ])
held-run_example = held-run wheel_loop 1 wheel_events 2 (pos 1) (λ c. refl) (omega arith)

abbrev peers : ConnMap
peers = ("a", some 1) ∷ ("b", some 2) ∷ []

broadcast-deliveries_example :
    (ss : List Sent) × (broadcast world (some (7 ∷ [])) peers ≡ some ss)
    × All (λ s. s.payload ≡ 7 ∷ []) ss
    × ((c : ℕ) → deliveries c ss ≡ (if c == 1 then registrations c peers else 0))
broadcast-deliveries_example = broadcast-deliveries world (7 ∷ []) peers

abbrev some_users : List UsersHistory.Call
some_users = UsersHistory.adds (pos 5) (some 1) ∷ UsersHistory.removes_conn world (pos 5) 2 ∷ []

get-run_users_example :
    (m : List (ℤ × Weak)) × (UsersHistory.run false some_users [] ≡ some m)
    × ((j : ℤ) → get_user j m ≡ UsersHistory.view_run some_users (λ u. get_user u []) j)
get-run_users_example = UsersHistory.get-run_users some_users []

reconnect_kept_example :
    (remove_conn true world (pos 5) (some 2) ((pos 5, some 1) ∷ []) ≡ some ((pos 5, some 1) ∷ []))
    × (remove_session world (pos 5) "old" ((pos 5, some 1) ∷ []) ≡ (pos 5, some 1) ∷ [])
    × (get_user (pos 5) ((pos 5, some 1) ∷ []) ≡ some 1)
unfolding add_user lookup insert erase place
reconnect_kept_example =
    reconnect_kept true world (pos 5) 2 1 "old" ((pos 5, some 2) ∷ []) (omega arith) refl
      (ground (arith, string_key.beq_iff "new" "old"))

abbrev gone : List (ℤ × Weak)
gone = (pos 5, some 2) ∷ []

abbrev some_sessions : List SessionsHistory.Call
some_sessions = SessionsHistory.adds (pos 5) "x" ∷ SessionsHistory.removes (pos 5) "y" ∷ []

picks_in_turn_example :
    (threads : List ℕ) × (picks 2 5 (7 ∷ 8 ∷ 9 ∷ []) ≡ some (threads, 7))
    × (length threads ≡ 2)
    × ((i : ℕ) → i < 2 → get_elem? threads i ≡ get_elem? (7 ∷ 8 ∷ 9 ∷ []) ((5 + i) % 3))
picks_in_turn_example = picks_in_turn 2 5 (7 ∷ 8 ∷ 9 ∷ []) (omega arith) (omega arith) (omega arith)

abbrev node : Connector
node = record { exists = λ name. string_key.beq name "a"; count = 1 }

-- One node in service while two are under repair.
abbrev halls : Container
halls = record { repairs = ("a", true) ∷ []; ty = hall_ty; clients = node; names = [] }

abbrev halls_after : Container
halls_after = record halls { repairs = ("a", true) ∷ ("b", true) ∷ [] }

service-run_example :
    ((n : String)
      → is_repairing n halls_after
        ≡ (view_run (repairs "c" ∷ repairs "b" ∷ recovers "c" ∷ []) (view halls)).repairing n)
    × (remaining halls_after ≡ negsuc 0)
unfolding run_nodes step_node repair recover add_name remove_name view_run view_step is_repairing
    count_names count_clients insert place erase lookup contains exist_name
service-run_example =
    service-run true (repairs "c" ∷ repairs "b" ∷ recovers "c" ∷ []) halls halls_after refl
      (refl, tt) (omega arith) (omega arith)
