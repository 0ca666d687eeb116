-- ===== src/Score.antt =====
-- public/gameStruct.h: `tagScoreInfo` and `tagSpecialScoreInfo`, the score lines that a table
-- writes at the end of a round, with their constructors and `clear`. The constructors leave
-- `startTime` and `bIsAndroid` uninitialised: what the memory holds is an argument.
pub mod Reset
use cppserver.Prelude.{ℕ, Bool, true, List, [], String}
use cppserver.Prelude.Int.{ℤ, pos, negsuc}

-- `INVALID_CHAIR` of public/gameConst.h.
abbrev pub invalid_chair : ℕ
invalid_chair = 0xffff

pub record ScoreInfo : Type 0 where
  pub chair_id : ℕ
  pub is_banker : ℕ
  pub add_score : ℤ
  pub bet_score : ℤ
  pub revenue : ℤ
  pub r_win_score : ℤ
  pub cell_score : List ℤ
  pub start_time : ℤ
  pub card_value : String

unfoldable pub init_score : ℤ → ScoreInfo
init_score start_time = record {
  chair_id = invalid_chair;
  is_banker = 0;
  add_score = pos 0;
  bet_score = pos 0;
  revenue = pos 0;
  r_win_score = pos 0;
  cell_score = [];
  start_time = start_time;
  card_value = "";
}

unfoldable pub clear_score : ScoreInfo → ScoreInfo
clear_score s = record s {
  chair_id = invalid_chair;
  is_banker = 0;
  add_score = pos 0;
  bet_score = pos 0;
  revenue = pos 0;
  r_win_score = pos 0;
  cell_score = [];
  card_value = "";
}

pub record SpecialScoreInfo : Type 0 where
  pub user_id : ℤ
  pub account : String
  pub chair_id : ℕ
  pub is_banker : ℕ
  pub agent_id : ℕ
  pub line_code : String
  pub before_score : ℤ
  pub add_score : ℤ
  pub bet_score : ℤ
  pub revenue : ℤ
  pub r_win_score : ℤ
  pub cell_score : List ℤ
  pub start_time : ℤ
  pub card_value : String
  pub is_android : Bool
  pub write_score : Bool
  pub write_record : Bool

unfoldable pub init_special : ℤ → Bool → SpecialScoreInfo
init_special start_time is_android = record {
  user_id = negsuc 0;
  account = "";
  chair_id = invalid_chair;
  is_banker = 0;
  agent_id = 0;
  line_code = "";
  before_score = negsuc 0;
  add_score = pos 0;
  bet_score = pos 0;
  revenue = pos 0;
  r_win_score = pos 0;
  cell_score = [];
  start_time = start_time;
  card_value = "";
  is_android = is_android;
  write_score = true;
  write_record = true;
}

unfoldable pub clear_special : SpecialScoreInfo → SpecialScoreInfo
clear_special s = record s {
  user_id = negsuc 0;
  account = "";
  chair_id = invalid_chair;
  is_banker = 0;
  agent_id = 0;
  line_code = "";
  before_score = negsuc 0;
  add_score = pos 0;
  bet_score = pos 0;
  revenue = pos 0;
  r_win_score = pos 0;
  cell_score = [];
  card_value = "";
}
