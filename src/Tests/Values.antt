-- ===== src/Tests/Values.antt =====
-- Tests of the models of public/gameConst.h, public/errorCode.h and thirdpart/Logger/src/Macro.h.
use cppserver.Prelude.{◌≡◌, refl}
use cppserver.Prelude.Int.{pos, negsuc}
use cppserver.Names.{after, rows_from, return_name, return_msg, errmsg}
use cppserver.Names.Game.{userstatus_map}
use cppserver.Names.Errors.{errorcode_map, get_error_name, get_error_msg}
use cppserver.Names.Lookup.{tables, IsFound, tables-IsFound}

tables-IsFound_example :
    IsFound
      (record { id = pos 5; name = "sOffline"; desc = "离线" })
      (rows_from "" (pos 0) userstatus_map)
unfolding tables userstatus_map rows_from after
tables-IsFound_example = tables-IsFound 4 5 refl refl

-- An enumerator behind a negative value, and one behind a later start.
name_above_minus_100 : get_error_name (negsuc 98) ≡ "kGameHandleProxyIDError"
unfolding get_error_name return_name rows_from after errorcode_map
name_above_minus_100 = refl

msg_of_94 : get_error_msg (pos 94) ≡ "[kGameRecordGetNoDataError]无注单数据"
unfolding get_error_msg return_msg errmsg rows_from after errorcode_map
msg_of_94 = refl
