-- ===== src/Tests/Errors.antt =====
-- Tests of the models of thirdpart/Logger/src/excp/excp.h and of
-- Framework/game_serv/interface/impl/Player.h.
use cppserver.Prelude.{◌≡◌, refl, true, false, [], ◌∷◌, some, none, List, arith}
use cppserver.Prelude.Int.{pos, negsuc}
use cppserver.Excp.{
  Utils, long32, long64, throw_a, throw_b, throw_c, trace_b, base_error_no, function_error,
  my_catch,
}
use cppserver.Excp.Message.{my_catch-messages}
use cppserver.Excp.{anything, exception}
use cppserver.Excp.Handled.{Body, attempts, asked, reached, is_calm, execute-attempts}
use cppserver.Log.{wait}
use cppserver.Log.Order.{execute}
use cppserver.Player.{Player, player, robot_with, init_info, is_official}
use cppserver.Player.History.{
  Shows, run, ready, offline, score, chair, last_written, get-run_player,
}

-- Prints the sign alone.
abbrev streams : Utils
streams = record {
  trim_file = λ f. f;
  trim_func = λ f. f;
  print = λ n. elim n [ pos _ ↦ "+" | negsuc _ ↦ "-" ];
}

my_catch-messages_example :
    (my_catch streams long64 (function_error (throw_a "a.cc" (pos 7) "f" "failed"))
      ≡ "EXCEPTION: (-) failed a.cc(+) f")
    × (my_catch streams long64 (function_error (throw_c "a.cc" (pos 7) "f" "open" "failed"))
        ≡ "EXCEPTION: open(-) failed a.cc(+) f")
    × (my_catch streams long64 (function_error (throw_b "a.cc" (pos 7) "f" "open" (pos 2) "failed"))
        ≡ "EXCEPTION: open(+) failed a.cc(+) f")
    × (my_catch streams long32 (function_error (throw_a "a.cc" (pos 7) "f" "failed"))
        ≡ "EXCEPTION: failed a.cc(+) f")
    × (my_catch streams long32 (function_error (throw_c "a.cc" (pos 7) "f" "open" "failed"))
        ≡ "EXCEPTION: open failed a.cc(+) f")
    × (my_catch streams long32 (function_error (throw_b "a.cc" (pos 7) "f" "open" (pos 2) "failed"))
        ≡ "EXCEPTION: open(+) failed a.cc(+) f")
my_catch-messages_example =
    my_catch-messages streams "a.cc" (pos 7) "f" "open" "failed" (pos 2) (omega arith)
      (ground arith) refl

abbrev bodies : List Body
bodies =
    record { calls = wait ∷ []; thrown = none }
    ∷ record { calls = []; thrown = some anything }
    ∷ record { calls = wait ∷ []; thrown = some (exception "e") }
    ∷ []

execute-attempts_example :
    execute false (attempts streams long64 1 bodies) ≡ asked streams long64 1 (reached false bodies)
unfolding is_calm
execute-attempts_example = execute-attempts streams long64 1 false bodies (refl, (refl, (refl, tt)))

traced :
    trace_b streams "open" (pos 2) "failed" "a.cc" (pos 7) "f" ≡ "TRACE[ open(+) ] failed a.cc(+) f"
unfolding trace_b base_error_no
traced = refl

-- A user who sits down, is ready and goes offline.
abbrev user : Player
user = record {
  class = player;
  robot = false;
  trustee = false;
  official = true;
  status = 1;
  table_id = 0;
  chair_id = 0;
  base_info = some (record init_info { user_id = pos 9 });
}

get-run_player_example :
    (q : Player) × (run (chair 4 ∷ ready ∷ score (pos 50) ∷ offline ∷ []) user ≡ some q)
    × Shows q 5 4 0 false (pos 9) (pos 50)
unfolding last_written init_info
get-run_player_example =
    get-run_player (chair 4 ∷ ready ∷ score (pos 50) ∷ offline ∷ []) user
      (record init_info { user_id = pos 9 }) refl

-- A robot is not official, whatever its field holds.
not_official : is_official (record user { class = robot_with (some 3) }) ≡ false
unfolding is_official
not_official = refl
