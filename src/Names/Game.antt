-- ===== src/Names/Game.antt =====
-- public/gameConst.h: the lists of the game's states, modes and types, of the players' states and
-- of the permissions, and their functions.
use cppserver.Prelude.{List, [], ◌∷◌, String}
use cppserver.Prelude.Int.{ℤ, pos}
use cppserver.Names.{Entry, xx, yy, rows_from, return_name, return_desc, return_msg}

unfoldable pub permission_map : List Entry
permission_map =
    yy "Guest" (pos 0) "游客"
    ∷ yy "GeneralUser" (pos 1) "普通用户"
    ∷ yy "Admin" (pos 8) "管理员"
    ∷ yy "SuperAdmin" (pos 9) "超级管理员"
    ∷ []

unfoldable pub gamemode_map : List Entry
gamemode_map =
    yy "Match" (pos 0) "匹配场"
    ∷ yy "Compete" (pos 1) "竞技场"
    ∷ yy "Club" (pos 2) "俱乐部"
    ∷ yy "Friend" (pos 3) "好友房"
    ∷ []

unfoldable pub gametype_map : List Entry
gametype_map = xx "GameType_BaiRen" "百人" ∷ xx "GameType_Confrontation" "对战" ∷ []

unfoldable pub gamestatus_map : List Entry
gamestatus_map =
    xx "GAME_STATUS_INIT" "初始"
    ∷ xx "GAME_STATUS_FREE" "空闲准备"
    ∷ yy "GAME_STATUS_START" (pos 100) "游戏进行"
    ∷ yy "GAME_STATUS_END" (pos 200) "游戏结束"
    ∷ []

unfoldable pub userstatus_map : List Entry
userstatus_map =
    yy "sGetout" (pos 0) "离开"
    ∷ xx "sFree" "空闲"
    ∷ xx "sSit" "坐下"
    ∷ xx "sReady" "准备"
    ∷ xx "sPlaying" "正在玩"
    ∷ xx "sOffline" "离线"
    ∷ xx "sLookon" "观战"
    ∷ xx "sBreakline" "断线"
    ∷ xx "sStop" "冻结"
    ∷ []

-- The instances of `STATIC_FUNCTION_IMPLEMENT`, `getTypeName` to `getPermissionMsg`.
unfoldable pub get_type_name : ℤ → String
get_type_name v = return_name v (rows_from "" (pos 0) gametype_map)

unfoldable pub get_type_desc : ℤ → String
get_type_desc v = return_desc v (rows_from "" (pos 0) gametype_map)

unfoldable pub get_type_msg : ℤ → String
get_type_msg v = return_msg v (rows_from "" (pos 0) gametype_map)

unfoldable pub get_status_name : ℤ → String
get_status_name v = return_name v (rows_from "" (pos 0) gamestatus_map)

unfoldable pub get_status_desc : ℤ → String
get_status_desc v = return_desc v (rows_from "" (pos 0) gamestatus_map)

unfoldable pub get_status_msg : ℤ → String
get_status_msg v = return_msg v (rows_from "" (pos 0) gamestatus_map)

unfoldable pub get_mode_name : ℤ → String
get_mode_name v = return_name v (rows_from "k" (pos 0) gamemode_map)

unfoldable pub get_mode_desc : ℤ → String
get_mode_desc v = return_desc v (rows_from "k" (pos 0) gamemode_map)

unfoldable pub get_mode_msg : ℤ → String
get_mode_msg v = return_msg v (rows_from "k" (pos 0) gamemode_map)

unfoldable pub get_permission_name : ℤ → String
get_permission_name v = return_name v (rows_from "k" (pos 0) permission_map)

unfoldable pub get_permission_desc : ℤ → String
get_permission_desc v = return_desc v (rows_from "k" (pos 0) permission_map)

unfoldable pub get_permission_msg : ℤ → String
get_permission_msg v = return_msg v (rows_from "k" (pos 0) permission_map)
