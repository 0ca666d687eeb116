-- ===== src/Table.antt =====
-- Games/Game_texas/TableFrameSink.h: what the table of a game keeps besides the cards, and the
-- names of its states. Games/Game_suoha/TableFrameSink.h has the same `userinfo_t` and
-- `GetUserId`.
pub mod Seats
pub mod Lines
pub mod Suoha
pub mod States
use cppserver.Prelude.{ℕ, ◌-◌, ◌^◌, ◌==◌, Bool, false, List, [], ◌∷◌, String, if◌then◌else◌}
use cppserver.Prelude.Int.{ℤ, pos}

-- The states of a game and of a player, as gameConst.h numbers them; `GAME_STATUS_READY` is
-- `GAME_STATUS_FREE` here.
unfoldable pub string_stat : ℕ → String
string_stat status =
    if status == 0
    then "eInit"
    else if status == 1
    then "eReady"
    else if status == 100
    then "ePlaying"
    else if status == 200
    then "eEnd"
    else "nil"

unfoldable pub string_player_stat : ℕ → String
string_player_stat status =
    if status == 0
    then "sGetout"
    else if status == 1
    then "sFree"
    else if status == 8
    then "sStop"
    else if status == 2
    then "sSit"
    else if status == 3
    then "sReady"
    else if status == 4
    then "sPlaying"
    else if status == 5
    then "sOffline"
    else if status == 6
    then "sLookon"
    else "nil"

-- `bet_t` and `pot_t`.
pub record Bet : Type 0 where
  pub id : ℕ
  pub score : ℤ

unfoldable pub reset_bet : Bet
reset_bet = record { id = 2 ^ 32 - 1; score = pos 0 }

pub record Pot : Type 0 where
  pub score : ℤ
  pub ids : List ℕ

unfoldable pub reset_pot : Pot
reset_pot = record { score = pos 0; ids = [] }

-- `userinfo_t`.
pub record UserInfo : Type 0 where
  pub chair_id : ℕ
  pub user_id : ℤ
  pub header_id : ℕ
  pub nick_name : String
  pub location : String
  pub head_img_url : String
  pub vip_level : ℕ
  pub headbox_id : ℕ
  pub promoter_id : ℤ
  pub bank_score : ℤ
  pub take_score : ℤ
  pub user_score : ℤ
  pub is_robot : Bool
  pub is_official : Bool
  pub is_leave : Bool

abbrev pub invalid_chair : ℕ
invalid_chair = 0xffff

-- `init` leaves the three texts.
unfoldable pub init_user : UserInfo → UserInfo
init_user u = record u {
  chair_id = invalid_chair;
  user_id = pos 0;
  header_id = 0;
  vip_level = 0;
  headbox_id = 0;
  promoter_id = pos 0;
  bank_score = pos 0;
  take_score = pos 0;
  user_score = pos 0;
  is_robot = false;
  is_official = false;
  is_leave = false;
}

-- `GetUserId`: the first entry of `userinfos_` on the chair, or 0.
unfoldable pub get_user_id : List (ℤ × UserInfo) → ℕ → ℤ
get_user_id [] chair_id = pos 0
get_user_id ((id, u) ∷ infos) chair_id =
    if u.chair_id == chair_id then id else get_user_id infos chair_id
