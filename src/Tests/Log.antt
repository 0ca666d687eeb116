-- ===== src/Tests/Log.antt =====
-- Tests of the models of thirdpart/Logger/src/log and thirdpart/TraceMsg.
use mathlib.Core.Option.{map as map_option}
use cppserver.Prelude.{
  ℕ, ◌≡◌, refl, true, false, List, [], ◌∷◌, ◌++◌, some, String, if◌then◌else◌, arith, Bool, Option,
}
use cppserver.Prelude.Maps.{string_key}
use cppserver.Log.{wait, abort, fatalf, infof, syn_fatal}
use cppserver.Log.Blocks.{fl_macro}
use cppserver.Log.Families.{logger, logger_impl, expand, plain, fl, pure, call, ending}
use cppserver.Log.Order.{
  Use, statements, program, execute, stops, reached, all_made, execute-program,
}
use cppserver.Log.Synchronous.{synchronous, guarded, execute-synchronous, execute-guarded}
use cppserver.Log.Assertions.{Expr}
use cppserver.Trace.{fmt_message_id, mainid, find, to_hall}
use cppserver.Trace.Search.{searched}
use cppserver.Trace.Lookup.{is_quiet, level_of}
use cppserver.Trace.Logged.{trace_message_id, printer, trace_message_id-eq}
use cppserver.Trace.Format.{has_percent, fmt_message_id-lacks-percent}

abbrev uses : List Use
uses =
    record { header = logger; style = 1; family = plain; name = infof; message = "a" }
    ∷ record { header = logger_impl; style = 1; family = pure; name = syn_fatal; message = "b" }
    ∷ record { header = logger; style = 1; family = fl; name = fatalf; message = "c" }
    ∷ record { header = logger; style = 1; family = fl; name = infof; message = "d" }
    ∷ []

execute-program_example : execute true (program uses) ≡ all_made (reached true uses)
execute-program_example = execute-program true uses

execute-synchronous_example : synchronous (execute true (program uses)) ≡ true
execute-synchronous_example = execute-synchronous true uses (omega arith)

abbrev last : Use
last = record { header = logger; style = 1; family = fl; name = fatalf; message = "c" }

execute-guarded_example :
    (execute true (guarded false (statements last) ++ program uses)
      ≡ ending fatalf ++ (if stops true fatalf then [] else execute true (program uses)))
    × (execute true (guarded true (statements last) ++ program uses)
        ≡ execute true (program (last ∷ uses)))
execute-guarded_example = execute-guarded true last uses

-- The process ends although the condition fails.
guarded_fatal : execute true (guarded false (statements last) ++ program uses) ≡ wait ∷ abort ∷ []
unfolding execute guarded statements expand fl_macro
guarded_fatal = refl

abbrev holds : Expr Bool
holds = record { source = "x > 0"; value = true; calls = [] }

abbrev fails : Expr Bool
fails = record { source = "y > 0"; value = false; calls = [] }

abbrev pointer : Expr (Option ℕ)
pointer = record { source = "p"; value = some 5; calls = [] }

abbrev ids : String → ℕ
ids s = if string_key.beq s to_hall then 2 else 9

trace_message_id-eq_example : trace_message_id ids 1 9 9 ≡ (
    if is_quiet ids false false 9 9
    then some []
    else map_option
        (λ l. call 1 plain (printer l) (fmt_message_id ids "" false false 9 9).0 ∷ [])
        (level_of (find ids 9 mainid) (find ids 9 (searched ids false false 9))))
trace_message_id-eq_example = trace_message_id-eq ids 1 9 9

fmt_message_id-lacks-percent_example : has_percent (fmt_message_id ids "" false false 9 9).0 ≡ false
fmt_message_id-lacks-percent_example = fmt_message_id-lacks-percent ids false false 9 9
