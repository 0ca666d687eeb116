-- ===== src/Thirteen/Status.antt =====
-- Games/Game_s13s/TableFrameSink.h: the names of the states of a game and of a player. The states
-- GAME_STATUS_GROUP, GAME_STATUS_OPEN and GAME_STATUS_PREEND follow GAME_STATUS_START, which is 100.
use cppserver.Prelude.{ℕ, ◌==◌, String, if◌then◌else◌}

unfoldable pub string_stat : ℕ → String
string_stat status =
    if status == 0
    then "eInit"
    else if status == 1
    then "eReady"
    else if status == 100
    then "ePlaying"
    else if status == 101
    then "eGroup"
    else if status == 102
    then "eOpen"
    else if status == 103
    then "eEnd"
    else if status == 200
    then "eEnd"
    else "nil"

unfoldable pub string_player_stat : ℕ → String
string_player_stat status =
    if status == 0
    then "sGetout"
    else if status == 1
    then "sFree"
    else if status == 2
    then "sSit"
    else if status == 3
    then "sReady"
    else if status == 4
    then "sPlaying"
    else if status == 5
    then "sOffline"
    else if status == 6
    then "sLookon"
    else "nil"
