-- ===== src/Names/Log.antt =====
-- thirdpart/Logger/src/Macro.h: the time zones, levels, modes and styles of the log.
use cppserver.Prelude.{List, [], ◌∷◌, String}
use cppserver.Prelude.Int.{ℤ, pos, negsuc}
use cppserver.Names.{Entry, yy, rows_from, return_name, return_desc}

unfoldable pub timezone_map : List Entry
timezone_map =
    yy "MY_PST" (negsuc 7) "PST"
    ∷ yy "MY_MST" (negsuc 6) "MST"
    ∷ yy "MY_EST" (negsuc 4) "EST"
    ∷ yy "MY_BST" (pos 1) "BST"
    ∷ yy "MY_UTC" (pos 0) "UTC"
    ∷ yy "MY_GST" (pos 4) "GST"
    ∷ yy "MY_CST" (pos 8) "CST"
    ∷ yy "MY_JST" (pos 9) "JST"
    ∷ []

unfoldable pub level_map : List Entry
level_map =
    yy "LVL_FATAL" (pos 0) "FATAL"
    ∷ yy "LVL_ERROR" (pos 1) "ERROR"
    ∷ yy "LVL_WARN" (pos 2) "WARN"
    ∷ yy "LVL_CRITICAL" (pos 3) "CRITICAL"
    ∷ yy "LVL_INFO" (pos 4) "INFO"
    ∷ yy "LVL_DEBUG" (pos 5) "DEBUG"
    ∷ yy "LVL_TRACE" (pos 6) "TRACE"
    ∷ []

unfoldable pub mode_map : List Entry
mode_map =
    yy "M_STDOUT_ONLY" (pos 0) "STDOUT_ONLY"
    ∷ yy "M_FILE_ONLY" (pos 1) "FILE_ONLY"
    ∷ yy "M_STDOUT_FILE" (pos 2) "STDOUT_FILE"
    ∷ []

unfoldable pub style_map : List Entry
style_map =
    yy "F_SYNC" (pos 0x1000) "SYNC"
    ∷ yy "F_DETAIL" (pos 0x0001) "DETAIL"
    ∷ yy "F_TMSTMP" (pos 0x0002) "TMSTMP"
    ∷ yy "F_FN" (pos 0x0004) "FN"
    ∷ yy "F_TMSTMP_FN" (pos 0x0008) "TMSTMP_FN"
    ∷ yy "F_FL" (pos 0x0010) "FL"
    ∷ yy "F_TMSTMP_FL" (pos 0x0020) "TMSTMP_FL"
    ∷ yy "F_FL_FN" (pos 0x0040) "FL_FN"
    ∷ yy "F_TMSTMP_FL_FN" (pos 0x0080) "TMSTMP_FL_FN"
    ∷ yy "F_TEXT" (pos 0x0100) "TEXT"
    ∷ yy "F_PURE" (pos 0x0200) "PURE"
    ∷ yy "F_DETAIL_SYNC" (pos 0x1001) "DETAIL_SYNC"
    ∷ yy "F_TMSTMP_SYNC" (pos 0x1002) "TMSTMP_SYNC"
    ∷ yy "F_FN_SYNC" (pos 0x1004) "FN_SYNC"
    ∷ yy "F_TMSTMP_FN_SYNC" (pos 0x1008) "TMSTMP_FN_SYNC"
    ∷ yy "F_FL_SYNC" (pos 0x1010) "FL_SYNC"
    ∷ yy "F_TMSTMP_FL_SYNC" (pos 0x1020) "TMSTMP_FL_SYNC"
    ∷ yy "F_FL_FN_SYNC" (pos 0x1040) "FL_FN_SYNC"
    ∷ yy "F_TMSTMP_FL_FN_SYNC" (pos 0x1080) "TMSTMP_FL_FN_SYNC"
    ∷ yy "F_TEXT_SYNC" (pos 0x1100) "TEXT_SYNC"
    ∷ yy "F_PURE_SYNC" (pos 0x1200) "PURE_SYNC"
    ∷ []

unfoldable pub get_timezone_name : ℤ → String
get_timezone_name v = return_name v (rows_from "" (pos 0) timezone_map)

unfoldable pub get_timezone_desc : ℤ → String
get_timezone_desc v = return_desc v (rows_from "" (pos 0) timezone_map)

unfoldable pub get_level_name : ℤ → String
get_level_name v = return_name v (rows_from "" (pos 0) level_map)

unfoldable pub get_level_desc : ℤ → String
get_level_desc v = return_desc v (rows_from "" (pos 0) level_map)

unfoldable pub get_log_mode_name : ℤ → String
get_log_mode_name v = return_name v (rows_from "" (pos 0) mode_map)

unfoldable pub get_log_mode_desc : ℤ → String
get_log_mode_desc v = return_desc v (rows_from "" (pos 0) mode_map)

unfoldable pub get_style_name : ℤ → String
get_style_name v = return_name v (rows_from "" (pos 0) style_map)

unfoldable pub get_style_desc : ℤ → String
get_style_desc v = return_desc v (rows_from "" (pos 0) style_map)
