-- ===== src/Tests/Game.antt =====
-- Tests of the models of public/gameStruct.h and of the draw by weights.
use cppserver.Prelude.{◌≡◌, refl, true, false, List, [], ◌∷◌, some}
use cppserver.Prelude.Int.{pos}
use cppserver.Replay.{GameReplay}
use cppserver.Replay.Log.{Call, clears, players, IsValid, run, logs, log_run, logs-run}
use cppserver.Score.{SpecialScoreInfo, init_special}
use cppserver.Weight.{Weights, init, shuffle, recover}
use cppserver.Weight.Draw.{draws}
use cppserver.Weight.Order.{shuffle-odds, recover-shuffle}

abbrev replay : GameReplay
replay = record {
  gameid = pos 630;
  gameinfoid = "g";
  roomname = "r";
  cellscore = pos 1;
  save_as_stream = true;
  details_data = "";
  players =
      record { userid = pos 1; accout = "a"; score = pos 2; chairid = pos 0; flag = false } ∷ [];
  steps = [];
  results = [];
}

replay-IsValid : IsValid replay
replay-IsValid = record {
  players_packed = ((λ _. unfold cppserver.Replay.Slots.marked in refl), tt);
  steps_packed = tt;
  results_packed = tt;
}

abbrev calls : List Call
calls = players (pos 7) "b" (pos 5) (pos 1) ∷ clears ∷ players (pos 8) "c" (pos 5) (pos 2) ∷ []

logs-run_example : logs (run calls replay) ≡ log_run calls (logs replay)
logs-run_example = logs-run calls replay replay-IsValid

abbrev special : SpecialScoreInfo
special = init_special (pos 100) true

abbrev weights : Weights
weights = record {
  high = 3;
  sum = 3;
  items = record { weight = 1; index = 0 } ∷ record { weight = 2; index = 1 } ∷ [];
}

shuffle-odds_example : draws 1 3 (shuffle (λ i. 0) weights) ≡ 2
unfolding init
shuffle-odds_example = shuffle-odds (1 ∷ 2 ∷ []) weights (λ i. 0) 1 2 refl refl

recover-shuffle_example : recover (shuffle (λ i. 0) weights) (0 ∷ 0 ∷ []) ≡ some (1 ∷ 2 ∷ [])
unfolding init
recover-shuffle_example = recover-shuffle (1 ∷ 2 ∷ []) (0 ∷ 0 ∷ []) weights (λ i. 0) refl refl
