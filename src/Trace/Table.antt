-- ===== src/Trace/Table.antt =====
-- Framework/game_tracemsg/TraceMsg.cc, the tables. A row names its enumerator, whose number the
-- build generates.
use cppserver.Prelude.{List, [], ◌∷◌, String}

-- The `LVL_` constants that the tables use.
pub data Level : Type 0 where
  debug info warn : Level

pub record Row : Type 0 where
  pub name : String
  pub desc : String
  pub level : Level

unfoldable pub mainid : List Row
mainid =
    record {
      name = "::Game::Common::MAINID::MAIN_MESSAGE_CLIENT_ID_BEGIN";
      desc = "";
      level = debug;
    }
    ∷ record {
      name = "::Game::Common::MAINID::MAIN_MESSAGE_CLIENT_TO_PROXY";
      desc = "网关服";
      level = debug;
    }
    ∷ record {
      name = "::Game::Common::MAINID::MAIN_MESSAGE_CLIENT_TO_HALL";
      desc = "大厅服";
      level = debug;
    }
    ∷ record {
      name = "::Game::Common::MAINID::MAIN_MESSAGE_CLIENT_TO_GAME_SERVER";
      desc = "游戏服";
      level = debug;
    }
    ∷ record {
      name = "::Game::Common::MAINID::MAIN_MESSAGE_CLIENT_TO_GAME_LOGIC";
      desc = "逻辑服";
      level = debug;
    }
    ∷ record {
      name = "::Game::Common::MAINID::MAIN_MESSAGE_PROXY_TO_HALL";
      desc = "大厅服";
      level = debug;
    }
    ∷ record {
      name = "::Game::Common::MAINID::MAIN_MESSAGE_HALL_TO_PROXY";
      desc = "网关服";
      level = debug;
    }
    ∷ record {
      name = "::Game::Common::MAINID::MAIN_MESSAGE_PROXY_TO_GAME_SERVER";
      desc = "游戏服";
      level = debug;
    }
    ∷ record {
      name = "::Game::Common::MAINID::MAIN_MESSAGE_GAME_SERVER_TO_PROXY";
      desc = "网关服";
      level = debug;
    }
    ∷ []

unfoldable pub client_to_server : List Row
client_to_server =
    record {
      name = "::Game::Common::MESSAGE_CLIENT_TO_SERVER_SUBID::MESSAGE_CLIENT_TO_SERVER_SUBID_BEGIN";
      desc = "";
      level = debug;
    }
    ∷ record {
      name = "::Game::Common::MESSAGE_CLIENT_TO_SERVER_SUBID::KEEP_ALIVE_REQ";
      desc = "心跳 SYN";
      level = debug;
    }
    ∷ record {
      name = "::Game::Common::MESSAGE_CLIENT_TO_SERVER_SUBID::KEEP_ALIVE_RES";
      desc = "心跳 ACK";
      level = debug;
    }
    ∷ []

unfoldable pub client_to_proxy : List Row
client_to_proxy =
    record {
      name = "::Game::Common::MESSAGE_CLIENT_TO_PROXY_SUBID::MESSAGE_CLIENT_TO_PROXY_SUBID_BEGIN";
      desc = "";
      level = debug;
    }
    ∷ record {
      name =
          "::Game::Common::MESSAGE_CLIENT_TO_PROXY_SUBID::CLIENT_TO_PROXY_GET_AES_KEY_MESSAGE_REQ";
      desc = "查询AESKey REQ";
      level = debug;
    }
    ∷ record {
      name =
          "::Game::Common::MESSAGE_CLIENT_TO_PROXY_SUBID::CLIENT_TO_PROXY_GET_AES_KEY_MESSAGE_RES";
      desc = "查询AESKey RSP";
      level = debug;
    }
    ∷ record {
      name =
          "::Game::Common::MESSAGE_CLIENT_TO_PROXY_SUBID::CLIENT_TO_PROXY_BIND_USER_CONNECTION_MESSAGE_REQ";
      desc = "绑定用户连接REQ";
      level = debug;
    }
    ∷ record {
      name =
          "::Game::Common::MESSAGE_CLIENT_TO_PROXY_SUBID::CLIENT_TO_PROXY_BIND_USER_CONNECTION_MESSAGE_RES";
      desc = "绑定用户连接RSP";
      level = debug;
    }
    ∷ record {
      name =
          "::Game::Common::MESSAGE_CLIENT_TO_PROXY_SUBID::CLIENT_TO_PROXY_BIND_GAME_SERVER_MESSAGE_REQ";
      desc = "绑定游戏服REQ";
      level = debug;
    }
    ∷ record {
      name =
          "::Game::Common::MESSAGE_CLIENT_TO_PROXY_SUBID::CLIENT_TO_PROXY_BIND_GAME_SERVER_MESSAGE_RES";
      desc = "绑定游戏服RSP";
      level = debug;
    }
    ∷ record {
      name =
          "::Game::Common::MESSAGE_CLIENT_TO_PROXY_SUBID::PROXY_NOTIFY_SHUTDOWN_USER_CLIENT_MESSAGE_NOTIFY";
      desc = "关闭客户端通知";
      level = debug;
    }
    ∷ record {
      name =
          "::Game::Common::MESSAGE_CLIENT_TO_PROXY_SUBID::PROXY_NOTIFY_PUBLIC_NOTICE_MESSAGE_NOTIFY";
      desc = "订阅通知";
      level = debug;
    }
    ∷ record {
      name = "::Game::Common::MESSAGE_CLIENT_TO_PROXY_SUBID::PROXY_NOTIFY_USER_ORDER_SCORE_MESSAGE";
      desc = "用户上下分通知!!!";
      level = debug;
    }
    ∷ []

unfoldable pub client_to_hall : List Row
client_to_hall =
    record {
      name = "::Game::Common::MESSAGE_CLIENT_TO_HALL_SUBID::MESSAGE_CLIENT_TO_HALL_SUBID_BEGIN";
      desc = "";
      level = debug;
    }
    ∷ record {
      name = "::Game::Common::MESSAGE_CLIENT_TO_HALL_SUBID::CLIENT_TO_HALL_LOGIN_MESSAGE_REQ";
      desc = "登陆大厅REQ";
      level = info;
    }
    ∷ record {
      name = "::Game::Common::MESSAGE_CLIENT_TO_HALL_SUBID::CLIENT_TO_HALL_LOGIN_MESSAGE_RES";
      desc = "登陆大厅RSP";
      level = info;
    }
    ∷ record {
      name = "::Game::Common::MESSAGE_CLIENT_TO_HALL_SUBID::CLIENT_TO_HALL_GET_GAME_ROOM_INFO_REQ";
      desc = "获取所有游戏列表REQ";
      level = warn;
    }
    ∷ record {
      name = "::Game::Common::MESSAGE_CLIENT_TO_HALL_SUBID::CLIENT_TO_HALL_GET_GAME_ROOM_INFO_RES";
      desc = "获取所有游戏列表RSP";
      level = warn;
    }
    ∷ record {
      name =
          "::Game::Common::MESSAGE_CLIENT_TO_HALL_SUBID::CLIENT_TO_HALL_GET_GAME_SERVER_MESSAGE_REQ";
      desc = "查询指定游戏节点REQ";
      level = warn;
    }
    ∷ record {
      name =
          "::Game::Common::MESSAGE_CLIENT_TO_HALL_SUBID::CLIENT_TO_HALL_GET_GAME_SERVER_MESSAGE_RES";
      desc = "查询指定游戏节点RSP";
      level = warn;
    }
    ∷ record {
      name =
          "::Game::Common::MESSAGE_CLIENT_TO_HALL_SUBID::CLIENT_TO_HALL_GET_PLAYING_GAME_INFO_MESSAGE_REQ";
      desc = "查询正在玩的游戏REQ";
      level = warn;
    }
    ∷ record {
      name =
          "::Game::Common::MESSAGE_CLIENT_TO_HALL_SUBID::CLIENT_TO_HALL_GET_PLAYING_GAME_INFO_MESSAGE_RES";
      desc = "查询正在玩的游戏RSP";
      level = warn;
    }
    ∷ []

unfoldable pub client_to_game_server : List Row
client_to_game_server =
    record { name = "::GameServer::SUBID::SUBID_BEGIN"; desc = ""; level = debug }
    ∷ record {
      name = "::GameServer::SUBID::SUB_C2S_ENTER_ROOM_REQ";
      desc = "进入房间REQ";
      level = info;
    }
    ∷ record {
      name = "::GameServer::SUBID::SUB_S2C_ENTER_ROOM_RES";
      desc = "进入房间RSP";
      level = info;
    }
    ∷ record {
      name = "::GameServer::SUBID::SUB_C2S_USER_READY_REQ";
      desc = "用户准备REQ";
      level = info;
    }
    ∷ record {
      name = "::GameServer::SUBID::SUB_S2C_USER_READY_RES";
      desc = "用户准备RSP";
      level = info;
    }
    ∷ record { name = "::GameServer::SUBID::SUB_C2S_USER_LEFT_REQ"; desc = "用户离开REQ"; level = info }
    ∷ record { name = "::GameServer::SUBID::SUB_S2C_USER_LEFT_RES"; desc = "用户离开RSP"; level = info }
    ∷ []

unfoldable pub proxy_to_hall : List Row
proxy_to_hall =
    record {
      name = "::Game::Common::MESSAGE_PROXY_TO_HALL_SUBID::HALL_ON_USER_OFFLINE";
      desc = "用户离线";
      level = debug;
    }
    ∷ []

unfoldable pub proxy_to_game_server : List Row
proxy_to_game_server =
    record { name = "::GameServer::SUBID::SUB_S2C_ENTER_ROOM_RES"; desc = "进入房间RSP"; level = info }
    ∷ record { name = "::GameServer::SUBID::SUB_S2C_USER_LEFT_RES"; desc = "用户离开RSP"; level = info }
    ∷ record {
      name = "::Game::Common::MESSAGE_PROXY_TO_GAME_SERVER_SUBID::GAME_SERVER_ON_USER_OFFLINE";
      desc = "用户离线";
      level = debug;
    }
    ∷ []

unfoldable pub game_server_to_proxy : List Row
game_server_to_proxy =
    record {
      name =
          "::Game::Common::MESSAGE_GAME_SERVER_TO_PROXY_SUBID::MESSAGE_GAME_SERVER_TO_PROXY_SUBID_BEGIN";
      desc = "";
      level = debug;
    }
    ∷ record {
      name =
          "::Game::Common::MESSAGE_GAME_SERVER_TO_PROXY_SUBID::PROXY_NOTIFY_KILL_BOSS_MESSAGE_REQ";
      desc = "踢出玩家";
      level = debug;
    }
    ∷ []

unfoldable pub http_to_server : List Row
http_to_server =
    record {
      name = "::Game::Common::MESSAGE_HTTP_TO_SERVER_SUBID::MESSAGE_NOTIFY_REPAIR_SERVER";
      desc = "Http修复";
      level = debug;
    }
    ∷ []
