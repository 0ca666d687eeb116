-- ===== src/Trace.antt =====
-- Framework/game_tracemsg/TraceMsg.cc: the names that are logged for a message's main id and sub
-- id. The numbers of the enumerators come from generated code: `ids` gives each by its name. The
-- four output strings and the level are a record; a level that no table has set is `none`.
mod Table
unfoldable pub use Table.*
pub mod Search
pub mod Lookup
pub mod Logged
pub mod Format
use Prim.Native.String.{◌++◌}
use cppserver.Prelude.{
  ℕ, zero, suc, ◌/◌, ◌%◌, ◌==◌, ltb, Bool, ◌&&◌, ◌||◌, List, [], ◌∷◌, Option, none, some, String,
  if◌then◌else◌, get_elem?,
}
use cppserver.Prelude.Maps.{is_empty}

pub record Message : Type 0 where
  pub main_id : String
  pub main_desc : String
  pub sub_id : String
  pub sub_desc : String
  pub level : Option Level

-- The loop of `MY_CMD_DESC`: the first row with the number.
unfoldable pub find : (String → ℕ) → ℕ → List Row → Option Row
find ids id [] = none
find ids id (r ∷ rows) = if ids r.name == id then some r else find ids id rows

-- `MY_CMD_DESC(mainId, …, strMainID, strMainDesc, lvl)`.
unfoldable pub describe_main : (String → ℕ) → ℕ → List Row → Message → Message
describe_main ids id rows m = elim (find ids id rows) [
  | none ↦ m
  | some r ↦ record m { main_id = r.name; main_desc = r.desc; level = some r.level }
]

-- `MY_CMD_DESC(subId, …, strSubID, strSubDesc, lvl)`.
unfoldable pub describe_sub : (String → ℕ) → ℕ → List Row → Message → Message
describe_sub ids id rows m = elim (find ids id rows) [
  | none ↦ m
  | some r ↦ record m { sub_id = r.name; sub_desc = r.desc; level = some r.level }
]

abbrev digits : List String
digits = "0" ∷ "1" ∷ "2" ∷ "3" ∷ "4" ∷ "5" ∷ "6" ∷ "7" ∷ "8" ∷ "9" ∷ []

abbrev digit : ℕ → String
digit n = elim (get_elem? digits n) [ none ↦ "" | some s ↦ s ]

abbrev decimal_within : ℕ → ℕ → String
decimal_within zero n = ""
decimal_within (suc fuel) n =
    if ltb n 10 then digit n else decimal_within fuel (n / 10) ++ digit (n % 10)

-- A `uint8_t` printed as an `int`: three digits are enough.
unfoldable pub decimal : ℕ → String
decimal n = decimal_within 3 n

abbrev pub to_proxy : String
to_proxy = "::Game::Common::MAINID::MAIN_MESSAGE_CLIENT_TO_PROXY"

abbrev pub to_hall : String
to_hall = "::Game::Common::MAINID::MAIN_MESSAGE_CLIENT_TO_HALL"

abbrev pub to_game_server : String
to_game_server = "::Game::Common::MAINID::MAIN_MESSAGE_CLIENT_TO_GAME_SERVER"

abbrev pub proxy_to_hall_main : String
proxy_to_hall_main = "::Game::Common::MAINID::MAIN_MESSAGE_PROXY_TO_HALL"

abbrev pub hall_to_proxy_main : String
hall_to_proxy_main = "::Game::Common::MAINID::MAIN_MESSAGE_HALL_TO_PROXY"

abbrev pub proxy_to_game_server_main : String
proxy_to_game_server_main = "::Game::Common::MAINID::MAIN_MESSAGE_PROXY_TO_GAME_SERVER"

abbrev pub no_message : Message
no_message = record { main_id = ""; main_desc = ""; sub_id = ""; sub_desc = ""; level = none }

module _ (ids : String → ℕ) where
  -- The heartbeats' table if they are traced, then the server's own if nothing is found.
  unfoldable pub with_heartbeat : Bool → ℕ → List Row → Message → Message
  with_heartbeat trace sub rows m =
      let m1 = if trace then describe_sub ids sub client_to_server m else m in
      if is_empty m1.sub_id then describe_sub ids sub rows m1 else m1

  -- The `switch (mainId)`.
  unfoldable pub describe_case : Bool → Bool → ℕ → ℕ → Message → Message
  unfolding with_heartbeat
  describe_case hall game main sub m =
      if main == ids to_proxy
      then describe_sub ids sub client_to_proxy m
      else if main == ids to_hall
      then with_heartbeat hall sub client_to_hall m
      else if main == ids to_game_server
      then with_heartbeat game sub client_to_game_server m
      else if main == ids proxy_to_hall_main
      then describe_sub ids sub proxy_to_hall m
      else if main == ids hall_to_proxy_main
      then m
      else if main == ids proxy_to_game_server_main
      then describe_sub ids sub proxy_to_game_server m
      else m

  -- The ids of the clients' messages to the hall and to the game server.
  unfoldable pub is_hidden : ℕ → Message → Bool
  is_hidden main m = (main == ids to_hall || main == ids to_game_server) && is_empty m.sub_id

  unfoldable pub str_message_id : Bool → Bool → ℕ → ℕ → Message → Message
  unfolding describe_case is_hidden
  str_message_id hall game main sub m =
      let m1 =
        describe_case hall game main sub
          (describe_main ids main mainid (record m { level = none })) in
      if is_hidden main m1 then m1 else record m1 {
        main_id = m1.main_id ++ ":" ++ decimal main;
        sub_id = m1.sub_id ++ ":" ++ decimal sub;
      }

  unfoldable pub fmt_message_id : String → Bool → Bool → ℕ → ℕ → String × Option Level
  unfolding str_message_id is_hidden
  fmt_message_id str hall game main sub =
      let m = str_message_id hall game main sub no_message in
      if is_hidden main m then (str, m.level) else (
        "\n"
            ++ (if is_empty m.main_desc then m.main_id else m.main_id ++ " - " ++ m.main_desc)
            ++ "\n"
            ++ (if is_empty m.sub_desc then m.sub_id else m.sub_id ++ " - " ++ m.sub_desc),
        m.level,
      )
