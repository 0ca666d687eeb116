-- ===== src/Player.antt =====
-- Framework/game_serv/interface/impl/Player.h and Robot.h: `CPlayer` and what `CRobot` overrides,
-- over the `UserBaseInfo` of public/gameStruct.h. Each `SetX` gets a number of its field's type.
-- The constructors have no body in the repository. The server of the clubs holds the same code.
pub mod History
use cppserver.Prelude.{ℕ, ◌==◌, not, Bool, true, false, Option, none, some, String, ◌>>=◌}
use cppserver.Prelude.Int.{ℤ, pos, negsuc}

-- A field that the constructor leaves unwritten is an Option; the last ones are read from the
-- database.
pub record UserBaseInfo : Type 0 where
  pub user_id : ℤ
  pub account : String
  pub head_id : ℕ
  pub privilege : ℤ
  pub nick_name : String
  pub user_score : ℤ
  pub agent_id : ℕ
  pub line_code : String
  pub status : ℕ
  pub ip : ℕ
  pub location : String
  pub take_max_score : ℤ
  pub take_min_score : ℤ
  pub alladdscore : ℤ
  pub allsubscore : ℤ
  pub winlostscore : ℤ
  pub allbetscore : ℤ
  pub registertime : ℤ
  pub registerip : String
  pub lastlogintime : ℤ
  pub lastloginip : String
  pub activedays : Option ℤ
  pub keeplogindays : Option ℤ
  pub addscoretimes : Option ℤ
  pub subscoretimes : Option ℤ
  pub onlinestatus : Option ℤ
  pub gamerevenue : Option ℤ
  pub gender : Option ℤ
  pub integralvalue : Option ℤ

-- Whether two ids are the same.
abbrev pub same_id : ℤ → ℤ → Bool
same_id (pos m) (pos n) = m == n
same_id (pos m) (negsuc n) = false
same_id (negsuc m) (pos n) = false
same_id (negsuc m) (negsuc n) = m == n

abbrev pub invalid_user : ℤ
invalid_user = negsuc 0

unfoldable pub init_info : UserBaseInfo
init_info = record {
  user_id = invalid_user;
  account = "";
  head_id = 0;
  privilege = pos 0;
  nick_name = "";
  user_score = pos 0;
  agent_id = 0;
  line_code = "";
  status = 0;
  ip = 0;
  location = "";
  take_max_score = pos 0;
  take_min_score = pos 0;
  alladdscore = pos 0;
  allsubscore = pos 0;
  winlostscore = pos 0;
  allbetscore = pos 0;
  registertime = pos 0;
  registerip = "";
  lastlogintime = pos 0;
  lastloginip = "";
  activedays = none;
  keeplogindays = none;
  addscoretimes = none;
  subscoretimes = none;
  onlinestatus = none;
  gamerevenue = none;
  gender = none;
  integralvalue = none;
}

-- The class of the object; a robot has `robotDelegate_`, a pointer that may be null.
pub data Class : Type 0 where
  player : Class
  robot_with : Option ℕ → Class

-- A null `baseInfo_` is `none`.
pub record Player : Type 0 where
  pub class : Class
  pub robot : Bool
  pub trustee : Bool
  pub official : Bool
  pub status : ℕ
  pub table_id : ℕ
  pub chair_id : ℕ
  pub base_info : Option UserBaseInfo

unfoldable pub is_robot : Player → Bool
is_robot p = p.robot

unfoldable pub is_official : Player → Bool
is_official p = elim p.class [ player ↦ p.official | robot_with d ↦ false ]

unfoldable pub get_delegate : Player → Option ℕ
get_delegate p = elim p.class [ player ↦ none | robot_with d ↦ d ]

-- The getters that read `baseInfo_`.
unfoldable pub valid : Player → Option Bool
valid p = do info ← p.base_info; some (not (same_id info.user_id invalid_user))

unfoldable pub get_user_id : Player → Option ℤ
get_user_id p = do info ← p.base_info; some info.user_id

unfoldable pub get_account : Player → Option String
get_account p = do info ← p.base_info; some info.account

unfoldable pub get_nick_name : Player → Option String
get_nick_name p = do info ← p.base_info; some info.nick_name

unfoldable pub get_header_id : Player → Option ℕ
get_header_id p = do info ← p.base_info; some info.head_id

unfoldable pub get_user_score : Player → Option ℤ
get_user_score p = do info ← p.base_info; some info.user_score

unfoldable pub get_ip : Player → Option ℕ
get_ip p = do info ← p.base_info; some info.ip

unfoldable pub get_location : Player → Option String
get_location p = do info ← p.base_info; some info.location

unfoldable pub get_take_max_score : Player → Option ℤ
get_take_max_score p = do info ← p.base_info; some info.take_max_score

unfoldable pub get_take_min_score : Player → Option ℤ
get_take_min_score p = do info ← p.base_info; some info.take_min_score

unfoldable pub set_table_id : ℕ → Player → Player
set_table_id id p = record p { table_id = id }

unfoldable pub set_chair_id : ℕ → Player → Player
set_chair_id id p = record p { chair_id = id }

unfoldable pub set_user_status : ℕ → Player → Player
set_user_status status p = record p { status = status }

unfoldable pub set_trustee : Bool → Player → Player
set_trustee trustship p = record p { trustee = trustship }

unfoldable pub set_user_score : ℤ → Player → Option Player
set_user_score score p = do
  info ← p.base_info
  some (record p { base_info = some (record info { user_score = score }) })

unfoldable pub set_user_base_info : UserBaseInfo → Player → Option Player
set_user_base_info new p = do info ← p.base_info; some (record p { base_info = some new })

-- The numbers of `UserStatus` in public/gameConst.h.
unfoldable pub set_user_ready : Player → Player
set_user_ready p = set_user_status 3 p

unfoldable pub set_user_sit : Player → Player
set_user_sit p = set_user_status 2 p

unfoldable pub set_offline : Player → Player
set_offline p = set_user_status 5 p

unfoldable pub is_getout : Player → Bool
is_getout p = 0 == p.status

unfoldable pub is_sit : Player → Bool
is_sit p = 2 == p.status

unfoldable pub is_ready : Player → Bool
is_ready p = 3 == p.status

unfoldable pub is_playing : Player → Bool
is_playing p = 4 == p.status

unfoldable pub lookon : Player → Bool
lookon p = 6 == p.status

unfoldable pub is_breakline : Player → Bool
is_breakline p = 7 == p.status

unfoldable pub is_offline : Player → Bool
is_offline p = 5 == p.status
