-- ===== src/Log/Families.antt =====
-- thirdpart/Logger/src/log/Logger.h and impl/LoggerImpl.h: the macros of all families, against one
-- description.
use Prim.Native.Nat.{bit_or}
use cppserver.Prelude.{ℕ, Bool, true, false, List, [], ◌∷◌, String, ◌≡◌, arith, if◌then◌else◌}
use cppserver.Log.{
  Level, lvl_fatal, lvl_error, lvl_warn, lvl_critical, lvl_info, lvl_debug, lvl_trace, f_sync,
  f_detail, f_tmstmp, f_fn, f_tmstmp_fn, f_fl, f_tmstmp_fl, f_fl_fn, f_tmstmp_fl_fn, f_text, f_pure,
  Param, Statement, write, write_s, write_fatal_s, wait, abort, Macro, fatalf, errorf, warnf,
  criticalf, infof, debugf, tracef, fatal, error, warn, critical, info, debug, trace, syn_fatalf,
  syn_fatal,
}
use cppserver.Log.Impl
use cppserver.Log.Blocks.{
  plain_macro, detail_macro, tmsp_macro, fn_macro, tmsp_fn_macro, fl_macro, tmsp_fl_macro,
  fl_fn_macro, tmsp_fl_fn_macro, text_macro, pure_macro,
}

-- The endings of the macros' names.
pub data Family : Type 0 where
  plain detail tmsp fn tmsp_fn fl tmsp_fl fl_fn tmsp_fl_fn text pure : Family

-- Which header's macros: those of LoggerImpl.h are for the log's own code.
pub data Header : Type 0 where
  logger logger_impl : Header

-- `style` is what the Logger's `getStyle` gives.
unfoldable pub expand : Header → ℕ → Family → Macro → String → List Statement
expand logger style plain m s = plain_macro style m s
expand logger style detail m s = detail_macro m s
expand logger style tmsp m s = tmsp_macro m s
expand logger style fn m s = fn_macro m s
expand logger style tmsp_fn m s = tmsp_fn_macro m s
expand logger style fl m s = fl_macro m s
expand logger style tmsp_fl m s = tmsp_fl_macro m s
expand logger style fl_fn m s = fl_fn_macro m s
expand logger style tmsp_fl_fn m s = tmsp_fl_fn_macro m s
expand logger style text m s = text_macro m s
expand logger style pure m s = pure_macro m s
expand logger_impl style plain m s = Impl.plain_macro style m s
expand logger_impl style detail m s = Impl.detail_macro m s
expand logger_impl style tmsp m s = Impl.tmsp_macro m s
expand logger_impl style fn m s = Impl.fn_macro m s
expand logger_impl style tmsp_fn m s = Impl.tmsp_fn_macro m s
expand logger_impl style fl m s = Impl.fl_macro m s
expand logger_impl style tmsp_fl m s = Impl.tmsp_fl_macro m s
expand logger_impl style fl_fn m s = Impl.fl_fn_macro m s
expand logger_impl style tmsp_fl_fn m s = Impl.tmsp_fl_fn_macro m s
expand logger_impl style text m s = Impl.text_macro m s
expand logger_impl style pure m s = Impl.pure_macro m s

-- What a family prints before the text.
unfoldable pub layout : ℕ → Family → ℕ
layout style plain = style
layout style detail = f_detail
layout style tmsp = f_tmstmp
layout style fn = f_fn
layout style tmsp_fn = f_tmstmp_fn
layout style fl = f_fl
layout style tmsp_fl = f_tmstmp_fl
layout style fl_fn = f_fl_fn
layout style tmsp_fl_fn = f_tmstmp_fl_fn
layout style text = f_text
layout style pure = f_pure

unfoldable pub level_of : Macro → Level
level_of errorf = lvl_error
level_of error = lvl_error
level_of warnf = lvl_warn
level_of warn = lvl_warn
level_of criticalf = lvl_critical
level_of critical = lvl_critical
level_of infof = lvl_info
level_of info = lvl_info
level_of debugf = lvl_debug
level_of debug = lvl_debug
level_of tracef = lvl_trace
level_of trace = lvl_trace
level_of _ = lvl_fatal

unfoldable pub is_fatal : Level → Bool
is_fatal lvl_fatal = true
is_fatal _ = false

-- The member function that is called: `write` where the text is a format.
unfoldable pub called : Macro → Param → ℕ → String → Statement
called fatalf = write
called errorf = write
called warnf = write
called criticalf = write
called infof = write
called debugf = write
called tracef = write
called syn_fatalf = write
called fatal = write_fatal_s
called _ = write_s

-- What follows the call.
unfoldable pub ending : Macro → List Statement
ending fatalf = wait ∷ abort ∷ []
ending syn_fatalf = wait ∷ []
ending syn_fatal = wait ∷ []
ending _ = []

unfoldable pub call : ℕ → Family → Macro → String → Statement
unfolding layout level_of is_fatal called
call style family m s =
    called m (record { level = level_of m; stack = is_fatal (level_of m) })
      (if is_fatal (level_of m) then bit_or (layout style family) f_sync else layout style family) s

-- In both headers and every family a macro makes one call of the Logger, of the level in its name, with the flag of
-- the family; a fatal one passes a stack and sets F_SYNC. Fatalf, SynFatalf and SynFatal then wait,
-- and Fatalf aborts.
pub expand-eq :
    (header : Header) (style : ℕ) (family : Family) (m : Macro) (s : String)
    → expand header style family m s ≡ call style family m s ∷ ending m
unfolding expand call ending plain_macro detail_macro tmsp_macro fn_macro tmsp_fn_macro fl_macro
    tmsp_fl_macro fl_fn_macro tmsp_fl_fn_macro text_macro pure_macro Impl.plain_macro
    Impl.detail_macro Impl.tmsp_macro Impl.fn_macro Impl.tmsp_fn_macro Impl.fl_macro
    Impl.tmsp_fl_macro Impl.fl_fn_macro Impl.tmsp_fl_fn_macro Impl.text_macro Impl.pure_macro
expand-eq header style family m s = ground arith
