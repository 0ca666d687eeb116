-- ===== src/Trace/Logged.antt =====
-- thirdpart/TraceMsg/TraceMsg.h, the macro `TraceMessageId`: a message's names as the format of
-- one of the Logger's macros.
use Prim.Native.String.{◌++◌ as str_append, ◌∷◌ as str_cons}
use mathlib.Core.Option
use text.Mathlib.TextEquality.{eq_iff}
use text.Mathlib.TextLemmas.{cons-ne-nil, cons-append, nil-append}
use mathlib.Core.List.{◌++◌ as append}
use cppserver.Prelude.{
  ℕ, ◌≡◌, refl, sym, ap, ◌∙◌, false, List, [], ◌∷◌, Option, none, some, String, if◌then◌else◌,
  Bool-cases, inl, inr,
}
use cppserver.Prelude.Maps.{is_empty, string_key}
use cppserver.Log.{
  Level, lvl_fatal, lvl_error, lvl_warn, lvl_critical, lvl_info, lvl_debug, lvl_trace, Statement,
  Macro, tracef, debugf, infof, criticalf, warnf, errorf,
}
use cppserver.Log.Families.{logger, plain, expand, call, ending, expand-eq}
use cppserver.Trace.{Level as Traced, debug, info, warn, mainid, find, fmt_message_id, Message}
use cppserver.Trace.Search.{searched}
use cppserver.Trace.Lookup.{is_quiet, level_of, fmt_message_id-eq, str_message_id-eq}

-- The number of a level of the tables.
unfoldable pub log_level : Traced → Level
log_level debug = lvl_debug
log_level info = lvl_info
log_level warn = lvl_warn

-- `switch (lvl)`: the case of LVL_CRITICAL has no `break`, and there is none of LVL_FATAL.
unfoldable pub log_by : ℕ → Level → String → List Statement
unfolding expand
log_by style lvl_trace s = expand logger style plain tracef s
log_by style lvl_debug s = expand logger style plain debugf s
log_by style lvl_info s = expand logger style plain infof s
log_by style lvl_critical s =
    append (expand logger style plain criticalf s) (expand logger style plain warnf s)
log_by style lvl_warn s = expand logger style plain warnf s
log_by style lvl_error s = expand logger style plain errorf s
log_by style lvl_fatal s = []

-- The rest of the macro, on the text and the level. `none` is a `switch` on a level that was never
-- set.
unfoldable pub log_text : ℕ → String × Option Traced → Option (List Statement)
unfolding log_by log_level
log_text style (text, lvl) =
    if is_empty text
    then some []
    else elim lvl [ none ↦ none | some l ↦ some (log_by style (log_level l) text) ]

unfoldable pub trace_message_id : (String → ℕ) → ℕ → ℕ → ℕ → Option (List Statement)
trace_message_id ids style main sub = log_text style (fmt_message_id ids "" false false main sub)

unfoldable pub printer : Traced → Macro
printer debug = debugf
printer info = infof
printer warn = warnf

log_by-printer :
    (style : ℕ) (l : Traced) (s : String)
    → log_by style (log_level l) s ≡ call style plain (printer l) s ∷ []
unfolding log_by log_level printer ending
log_by-printer style debug s = expand-eq logger style plain debugf s
log_by-printer style info s = expand-eq logger style plain infof s
log_by-printer style warn s = expand-eq logger style plain warnf s

lines_full : (s : String) → is_empty (str_append "\n" s) ≡ false
lines_full s = elim (Bool-cases (is_empty (str_append "\n" s))) [
  | inl empty ↦ absurd (cons-ne-nil "\n" s (sym begun ∙ (eq_iff (str_append "\n" s) "").0 empty))
  | inr full ↦ full
]
  where
    begun : str_append "\n" s ≡ str_cons "\n" s
    begun = cons-append "\n" "" s ∙ ap (str_cons "\n") (nil-append s)

log_text-full :
    (style : ℕ) (r : String × Option Traced)
    → is_empty r.0 ≡ false
    → log_text style r ≡ Option.map (λ l. call style plain (printer l) r.0 ∷ []) r.1
unfolding log_text
log_text-full style (text, none) full = rw full refl
log_text-full style (text, some l) full = rw full (ap some (log_by-printer style l text))

log_text-empty : (style : ℕ) (lvl : Option Traced) → log_text style ("", lvl) ≡ some []
unfolding log_text
log_text-empty style lvl = refl

module _ (ids : String → ℕ) (style main sub : ℕ) where
  fmt_level :
      (fmt_message_id ids "" false false main sub).1
      ≡ level_of (find ids main mainid) (find ids sub (searched ids false false main))
  fmt_level =
      ap (λ (r : String × Option Traced). r.1) (fmt_message_id-eq ids "" false false main sub)
      ∙ ap (λ (m : Message). m.level) (str_message_id-eq ids false false main sub)

  fmt_full :
      is_quiet ids false false main sub ≡ false
      → is_empty (fmt_message_id ids "" false false main sub).0 ≡ false
  fmt_full loud = rw (fmt_message_id-eq ids "" false false main sub, loud) (lines_full _)

  -- TraceMessageId logs nothing of a client's message to the hall or the game server whose sub id
  -- has no row. Of any other it makes one call of the Logger, with the text of fmtMessageId as
  -- the format and the level of the sub id's row, or else of the main id's; where both rows are
  -- missing it switches on a level that was never set.
  pub trace_message_id-eq : trace_message_id ids style main sub ≡ (
      if is_quiet ids false false main sub
      then some []
      else Option.map
          (λ l. call style plain (printer l) (fmt_message_id ids "" false false main sub).0 ∷ [])
          (level_of (find ids main mainid) (find ids sub (searched ids false false main))))
  unfolding trace_message_id
  trace_message_id-eq = elim (Bool-cases (is_quiet ids false false main sub)) [
    | inl quiet ↦ rw (fmt_message_id-eq ids "" false false main sub, quiet) (log_text-empty style _)
    | inr loud ↦
        rw (loud, ← fmt_level)
          (log_text-full style (fmt_message_id ids "" false false main sub) (fmt_full loud))
  ]
