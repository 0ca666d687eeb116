-- ===== src/Log/Assertions.antt =====
-- thirdpart/Logger/src/log/Assert.h, and impl/AssertImpl.h with the macros of LoggerImpl.h: the
-- assertions. A condition is an argument of the macro and
-- is evaluated only where the expansion names it, so it is given with what its evaluation does.
use Prim.Native.Nat.{bit_or}
use Prim.Native.String.{◌++◌}
use mathlib.Core.List.{◌++◌ as append}
use cppserver.Prelude.{
  ℕ, Bool, true, false, List, [], ◌∷◌, Option, none, some, String, ◌≡◌, ◌⊎◌, if◌then◌else◌,
}
use cppserver.Prelude.Maps.{is_empty}
use cppserver.Log.{f_sync, f_detail, param_fatal, Statement, write_fatal_s, fatal}
use cppserver.Log.Families.{Header, plain, expand}

-- An expression of the program: its text, its value, and the calls that its evaluation makes.
pub record Expr (A : Type 0) : Type 0 where
  pub source : String
  pub value : A
  pub calls : List Statement

-- `FatalNotNull`. It gives the pointer back, a null one too if `write_fatal_s` returns.
unfoldable pub fatal_not_null : {A : Type 0} → Option A → String → Option A × List Statement
fatal_not_null none msg = (none, write_fatal_s param_fatal (bit_or f_detail f_sync) msg ∷ [])
fatal_not_null (some a) msg = (some a, [])

-- `ndebug` is whether NDEBUG is defined.
unfoldable pub assert_notnull : {A : Type 0} → Bool → Expr (Option A) → Option A × List Statement
unfolding fatal_not_null
assert_notnull true ptr = (ptr.value, ptr.calls)
assert_notnull false ptr =
    let r = fatal_not_null ptr.value ("'" ++ ptr.source ++ "' Must be non NULL") in
    (r.0, append ptr.calls r.1)

module _ (header : Header) (style : ℕ) where
  unfoldable pub assert : Bool → Expr Bool → List Statement
  assert true expr = []
  assert false expr =
      append expr.calls
        (if expr.value then [] else expand header style plain fatal ("ASSERT: " ++ expr.source))

  -- `_S`.
  unfoldable pub suffix : String → String
  suffix s = if is_empty s then "" else ": " ++ s

  unfoldable pub assert_s : Bool → Expr Bool → String → List Statement
  unfolding suffix
  assert_s true expr s = []
  assert_s false expr s = append expr.calls (
      if expr.value
      then []
      else expand header style plain fatal (("ASSERT: " ++ expr.source) ++ suffix s))

  -- `s` is what `utils::sprintf` gives.
  unfoldable pub assert_v : Bool → Expr Bool → String → List Statement
  unfolding assert_s
  assert_v true expr s = []
  assert_v false expr s = assert_s false expr s

  unfoldable pub assert_if : Bool → Expr Bool → Expr Bool → List Statement
  unfolding assert
  assert_if ndebug cond expr = append cond.calls (if cond.value then assert ndebug expr else [])

  unfoldable pub assert_s_if : Bool → Expr Bool → Expr Bool → String → List Statement
  unfolding assert_s
  assert_s_if ndebug cond expr s =
      append cond.calls (if cond.value then assert_s ndebug expr s else [])

  unfoldable pub assert_v_if : Bool → Expr Bool → Expr Bool → String → List Statement
  unfolding assert_v
  assert_v_if ndebug cond expr s =
      append cond.calls (if cond.value then assert_v ndebug expr s else [])

-- Nothing is to be reported: the condition fails, or the expression holds and does nothing else.
abbrev pub Passes : Expr Bool → Expr Bool → Type 0
Passes cond expr = (cond.value ≡ false) ⊎ ((expr.value ≡ true) × (expr.calls ≡ []))
