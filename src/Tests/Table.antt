-- ===== src/Tests/Table.antt =====
-- Tests of the model of Games/Game_texas/TableFrameSink.h.
use cppserver.Prelude.{
  ℕ, false, true, ◌≡◌, refl, ◌==◌, List, [], ◌∷◌, Option, some, none, if◌then◌else◌, arith,
}
use cppserver.Prelude.Int.{ℤ, pos}
use cppserver.Prelude.Maps.{ℤ_key, lookup}
use cppserver.Score.{init_special}
use cppserver.Player.{Player, player as player_class, init_info}
use cppserver.Player
use cppserver.Table.{UserInfo, get_user_id}
use cppserver.Table.Lines.{set_score_info_base, set_score_info_base-user_id}

abbrev player : ℕ → ℕ → UserInfo
player chair id = record {
  chair_id = chair;
  user_id = pos id;
  header_id = 0;
  nick_name = "n";
  location = "";
  head_img_url = "";
  vip_level = 0;
  headbox_id = 0;
  promoter_id = pos 0;
  bank_score = pos 0;
  take_score = pos 100;
  user_score = pos 100;
  is_robot = false;
  is_official = false;
  is_leave = false;
}

abbrev seated : List (ℤ × UserInfo)
seated = (pos 7, player 2 7) ∷ (pos 9, player 0 9) ∷ []

abbrev item : Player
item = record {
  class = player_class;
  robot = false;
  trustee = false;
  official = false;
  status = 4;
  table_id = 1;
  chair_id = 0;
  base_info = some (record init_info { user_id = pos 9 });
}

abbrev seats : ℕ → Option Player
seats chair = if chair == 0 then some item else none

set_score_info_base-user_id_example :
    let fresh = init_special (pos 0) false in
    let line = record fresh { chair_id = 0; user_id = get_user_id seated 0 } in
    (set_score_info_base true seats fresh 0 (some (player 0 9)) ≡ some line)
    × (set_score_info_base true seats fresh 0 none ≡ some line)
    × (set_score_info_base true seats fresh 5 (some (player 0 9)) ≡ none)
unfolding lookup Player.get_user_id
set_score_info_base-user_id_example =
    set_score_info_base-user_id true seats (init_special (pos 0) false) seated (player 0 9) item 5
      ((omega arith, tt), (tt, tt)) refl refl refl (omega arith)
