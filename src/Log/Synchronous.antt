-- ===== src/Log/Synchronous.antt =====
-- thirdpart/Logger/src/log/Logger.h: which of the calls that the macros make are written
-- synchronously and waited for, and what an `if` without braces guards.
use Prim.Native.Nat.{bit_and, bit_or}
use cppserver.Prelude.{
  ℕ, zero, suc, ◌<◌, ◌==◌, Bool, true, false, not, ◌&&◌, ◌||◌, List, [], ◌∷◌, ◌++◌, ◌≡◌, refl,
  arith, ◌∙◌, if◌then◌else◌, Bool-cases, inl, inr,
}
use cppserver.Log.{
  f_sync, Param, Statement, write, write_s, write_fatal_s, wait, Macro, fatalf, fatal,
}
use cppserver.Log.Families.{
  Family, plain, detail, tmsp, fn, tmsp_fn, fl, tmsp_fl, fl_fn, tmsp_fl_fn, text, pure, layout,
  called, call, ending, is_fatal, level_of,
}
use cppserver.Log.Order.{
  Use, statements, program, execute, stops, reached, made, all_made, statements-made,
  execute-program,
}

unfoldable pub has_sync : ℕ → Bool
has_sync flag = bit_and flag f_sync == f_sync

-- A call has F_SYNC and a stack, or it has neither and is not fatal.
unfoldable pub marked : Param → ℕ → Bool
unfolding has_sync is_fatal
marked p flag =
    if is_fatal p.level then p.stack && has_sync flag else not p.stack && not (has_sync flag)

unfoldable pub begins_wait : List Statement → Bool
begins_wait (wait ∷ rest) = true
begins_wait _ = false

-- Each call is marked so, and a fatal one of `write` or `write_s` is waited for at once.
unfoldable pub synchronous : List Statement → Bool
unfolding marked begins_wait
synchronous [] = true
synchronous (write p f s ∷ rest) =
    marked p f && (not (is_fatal p.level) || begins_wait rest) && synchronous rest
synchronous (write_s p f s ∷ rest) =
    marked p f && (not (is_fatal p.level) || begins_wait rest) && synchronous rest
synchronous (write_fatal_s p f s ∷ rest) = marked p f && synchronous rest
synchronous (_ ∷ rest) = synchronous rest

-- The Logger's style at each use has none of the bits from F_SYNC up.
abbrev pub AreStyles : List Use → Type 0
AreStyles [] = Unit
AreStyles (u ∷ us) = (u.style < f_sync) × AreStyles us

-- A flag takes F_SYNC up, and did not have it.
abbrev takes_sync : ℕ → Bool
takes_sync flag = has_sync (bit_or flag f_sync) && not (has_sync flag)

-- All flags under the limit take it up.
all_take : (limit : ℕ) → Bool
all_take zero = true
all_take (suc flag) = if takes_sync flag then all_take flag else false

style-takes : (limit style : ℕ) → style < limit → all_take limit ≡ true → takes_sync style ≡ true
unfolding all_take
style-takes zero style small ok = elim small [ ]
style-takes (suc flag) style small ok = elim (Bool-cases (style == flag)) [
  | inl last ↦ let same : style ≡ flag = ground arith in rw same (ground arith)
  | inr earlier ↦ style-takes flag style (ground arith) (ground arith)
]

styles_take : all_take f_sync ≡ true
unfolding all_take has_sync
styles_take = refl

layout-sync :
    (style : ℕ) (family : Family) → style < f_sync → takes_sync (layout style family) ≡ true
unfolding layout has_sync
layout-sync style plain h = style-takes f_sync style h styles_take
layout-sync style detail h = refl
layout-sync style tmsp h = refl
layout-sync style fn h = refl
layout-sync style tmsp_fn h = refl
layout-sync style fl h = refl
layout-sync style tmsp_fl h = refl
layout-sync style fl_fn h = refl
layout-sync style tmsp_fl_fn h = refl
layout-sync style text h = refl
layout-sync style pure h = refl

synchronous-made :
    (u : Use) (m : Macro) (rest : List Statement)
    → u.name ≡ m
    → takes_sync (layout u.style u.family) ≡ true
    → synchronous (made u ++ rest) ≡ synchronous rest
unfolding synchronous call called ending level_of is_fatal marked begins_wait
synchronous-made u m rest e h = rw e (ground arith)

synchronous-all_made :
    (returns : Bool) (us : List Use)
    → AreStyles us
    → synchronous (all_made (reached returns us)) ≡ true
unfolding all_made reached synchronous
synchronous-all_made returns [] h = refl
synchronous-all_made returns (u ∷ us) h =
    let bits = layout-sync u.style u.family h.0 in
    elim (Bool-cases (stops returns u.name)) [
      | inl ends ↦ rw ends (synchronous-made u u.name [] refl bits)
      | inr on ↦ rw on (
          synchronous-made u u.name (all_made (reached returns us)) refl bits
          ∙ synchronous-all_made returns us h.1)
    ]

-- As long as the Logger's style has none of the bits from F_SYNC up, whatever the program: each
-- call that the process makes has F_SYNC and a stack if its level is FATAL, and neither if it is
-- not; and each fatal one is waited for before anything else is done, unless it is one of
-- write_fatal_s.
pub execute-synchronous :
    (returns : Bool) (us : List Use)
    → AreStyles us
    → synchronous (execute returns (program us)) ≡ true
execute-synchronous returns us h =
    rw (execute-program returns us) (synchronous-all_made returns us h)

-- `if (c) MACRO(…);`: the condition guards the first statement.
unfoldable pub guarded : Bool → List Statement → List Statement
guarded true l = l
guarded false [] = []
guarded false (st ∷ rest) = rest

execute-ending :
    (returns : Bool) (m : Macro) (rest : List Statement)
    → execute returns (ending m ++ rest)
      ≡ ending m ++ (if stops true m then [] else execute returns rest)
unfolding execute ending stops
execute-ending returns fatalf rest = refl
execute-ending returns fatal rest = refl
execute-ending returns m rest = refl

-- In an if without braces the condition guards the call and not what follows it: where it fails,
-- SynFatalf and SynFatal wait all the same, Fatalf waits and aborts, and the others do nothing;
-- where it holds, the use is made.
pub execute-guarded :
    (returns : Bool) (u : Use) (us : List Use)
    → (execute returns (guarded false (statements u) ++ program us)
        ≡ ending u.name ++ (if stops true u.name then [] else execute returns (program us)))
      × (execute returns (guarded true (statements u) ++ program us)
          ≡ execute returns (program (u ∷ us)))
unfolding guarded program
execute-guarded returns u us =
    (rw (statements-made u) (execute-ending returns u.name (program us)), refl)
