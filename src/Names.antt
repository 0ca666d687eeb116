-- ===== src/Names.antt =====
-- thirdpart/Logger/src/const.h: the macros for enumerations that are written as lists of entries,
-- and for the functions that give the name, the description and the message of a value. The lists
-- stand in the children: those of public/gameConst.h, public/errorCode.h and
-- thirdpart/Logger/src/Macro.h.
pub mod Game
pub mod Errors
pub mod Log
pub mod Api
pub mod Lookup
use Prim.Native.String.{◌++◌}
use cppserver.Prelude.{zero, suc, ◌+◌, List, [], ◌∷◌, String, if◌then◌else◌}
use cppserver.Prelude.Int.{ℤ, pos, negsuc}
use cppserver.Prelude.Maps.{beq_ℤ, is_empty}

-- `XX(n, s)` and `YY(n, i, s)`.
pub data Entry : Type 0 where
  xx : String → String → Entry
  yy : String → ℤ → String → Entry

pub record Row : Type 0 where
  pub id : ℤ
  pub name : String
  pub desc : String

unfoldable pub after : ℤ → ℤ
after (pos n) = pos (n + 1)
after (negsuc zero) = pos 0
after (negsuc (suc n)) = negsuc n

-- The table of a list. An enumerator without a value is one more than the one before it, and
-- `prefix` is what the `K_` macros put before the names.
unfoldable pub rows_from : String → ℤ → List Entry → List Row
rows_from prefix next [] = []
rows_from prefix next (xx n s ∷ entries) =
    record { id = next; name = prefix ++ n; desc = s } ∷ rows_from prefix (after next) entries
rows_from prefix next (yy n i s ∷ entries) =
    record { id = i; name = prefix ++ n; desc = s } ∷ rows_from prefix (after i) entries

-- `RETURN_NAME`, `RETURN_DESC`, `RETURN_MSG` and the `return ""` behind them.
unfoldable pub return_name : ℤ → List Row → String
return_name id [] = ""
return_name id (r ∷ rows) = if beq_ℤ r.id id then r.name else return_name id rows

unfoldable pub return_desc : ℤ → List Row → String
return_desc id [] = ""
return_desc id (r ∷ rows) = if beq_ℤ r.id id then r.desc else return_desc id rows

-- `Msg::errmsg` is the same text.
unfoldable pub errmsg : String → String → String
errmsg name desc = if is_empty name then desc else "[" ++ name ++ "]" ++ desc

unfoldable pub return_msg : ℤ → List Row → String
unfolding errmsg
return_msg id [] = ""
return_msg id (r ∷ rows) = if beq_ℤ r.id id then errmsg r.name r.desc else return_msg id rows
