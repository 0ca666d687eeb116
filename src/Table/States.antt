-- ===== src/Table/States.antt =====
-- The names of the states in the three games, Games/Game_texas, Game_suoha and Game_s13s; and
-- `IsGameStarted` of Framework/game_serv/interface/impl/Table.h.
use cppserver.Prelude.{
  ℕ, ◌==◌, ltb, leb, ◌≡◌, refl, Bool, false, ◌&&◌, ◌||◌, not, if◌then◌else◌, arith,
}
use cppserver.Table
use cppserver.Table.Suoha
use cppserver.Thirteen.Status

unfoldable pub is_game_started : ℕ → Bool
is_game_started status = leb 100 status && ltb status 200

-- The states that the game of thirteen cards has of its own.
unfoldable pub is_extra : ℕ → Bool
is_extra status = status == 101 || (status == 102 || status == 103)

-- The three games name the states of a game and of a player alike, but that the states of thirteen
-- cards between the start and the end have no name in the other two, and a stopped player none in
-- thirteen cards. These states are all ones of a started game; the last of them has the name of the
-- end.
pub string_stat-alike :
    (status : ℕ)
    → (Table.string_stat status ≡ Suoha.string_stat status)
      × (Suoha.string_stat status ≡ (if is_extra status then "nil" else Status.string_stat status))
      × (Table.string_player_stat status ≡ Suoha.string_player_stat status)
      × (Status.string_player_stat status
          ≡ (if status == 8 then "nil" else Suoha.string_player_stat status))
      × ((is_extra status && not (is_game_started status)) ≡ false)
unfolding is_game_started is_extra Table.string_stat Table.string_player_stat Suoha.string_stat
    Suoha.string_player_stat Status.string_stat Status.string_player_stat
string_stat-alike status = (refl, ground arith, refl, ground arith, ground arith)
