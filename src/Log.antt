-- ===== src/Log.antt =====
-- thirdpart/Logger/src/log/Logger.h, and impl/LoggerImpl.h: the macros that log. The Logger behind them has no bodies
-- here: a macro is the list of the statements that it expands to, with the arguments that it gives
-- the Logger. The place (__FILE__, __LINE__, __FUNC__) is passed by all of them alike and left out,
-- as are the values after a format. Macro.h has the levels and the flags.
pub mod Blocks
pub mod Impl
pub mod Families
pub mod Order
pub mod Synchronous
pub mod Assertions
use cppserver.Prelude.{ℕ, Bool, true, false, String}

-- `LEVEL_MAP`.
pub data Level : Type 0 where
  lvl_fatal lvl_error lvl_warn lvl_critical lvl_info lvl_debug lvl_trace : Level

-- `STYLE_MAP`: single bits.
abbrev pub f_sync : ℕ
f_sync = 0x1000

abbrev pub f_detail : ℕ
f_detail = 0x0001

abbrev pub f_tmstmp : ℕ
f_tmstmp = 0x0002

abbrev pub f_fn : ℕ
f_fn = 0x0004

abbrev pub f_tmstmp_fn : ℕ
f_tmstmp_fn = 0x0008

abbrev pub f_fl : ℕ
f_fl = 0x0010

abbrev pub f_tmstmp_fl : ℕ
f_tmstmp_fl = 0x0020

abbrev pub f_fl_fn : ℕ
f_fl_fn = 0x0040

abbrev pub f_tmstmp_fl_fn : ℕ
f_tmstmp_fl_fn = 0x0080

abbrev pub f_text : ℕ
f_text = 0x0100

abbrev pub f_pure : ℕ
f_pure = 0x0200

-- A `PARAM_` macro: the level, and whether a stack is passed or `NULL`.
pub record Param : Type 0 where
  pub level : Level
  pub stack : Bool

abbrev pub param_fatal : Param
param_fatal = record { level = lvl_fatal; stack = true }

abbrev pub param_error : Param
param_error = record { level = lvl_error; stack = false }

abbrev pub param_warn : Param
param_warn = record { level = lvl_warn; stack = false }

abbrev pub param_critical : Param
param_critical = record { level = lvl_critical; stack = false }

abbrev pub param_info : Param
param_info = record { level = lvl_info; stack = false }

abbrev pub param_debug : Param
param_debug = record { level = lvl_debug; stack = false }

abbrev pub param_trace : Param
param_trace = record { level = lvl_trace; stack = false }

-- The calls of the Logger with their flag and their text (for `write` the format), and
-- `std::abort()`.
pub data Statement : Type 0 where
  write : Param → ℕ → String → Statement
  write_s : Param → ℕ → String → Statement
  write_fatal_s : Param → ℕ → String → Statement
  wait : Statement
  abort : Statement

-- The macros of a family.
pub data Macro : Type 0 where
  fatalf errorf warnf criticalf infof debugf tracef : Macro
  fatal error warn critical info debug trace : Macro
  syn_fatalf syn_fatal : Macro
