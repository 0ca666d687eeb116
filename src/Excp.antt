-- ===== src/Excp.antt =====
-- thirdpart/Logger/src/excp/excp.h: the errors, the macros that throw and trace them, and what the
-- handlers of MY_CATCH write to the log (without Qt). impl/excpImpl.h holds the same code.
pub mod Message
pub mod Handled
use Prim.Native.String.{String, ◌++◌}
use cppserver.Prelude.{
  ℕ, ◌-◌, ◌^◌, ◌%◌, ◌==◌, ltb, Bool, true, false, Option, none, some, if◌then◌else◌,
}
use cppserver.Prelude.Int.{ℤ, pos, negsuc}

-- `utils::trim_file` and `utils::trim_func`, and how a stream prints an `int`.
pub record Utils : Type 0 where
  pub trim_file : String → String
  pub trim_func : String → String
  pub print : ℤ → String

pub record BaseError : Type 0 where
  pub what : String
  pub err_no : ℤ
  pub l : ℤ
  pub f : String
  pub fn : String

pub record FunctionError : Type 0 where
  pub base : BaseError
  pub fn_str : String

-- A number that is stored in an `int` of 32 bits.
unfoldable pub to_int : ℕ → ℤ
to_int n = if ltb (n % 2 ^ 32) (2 ^ 31) then pos (n % 2 ^ 32) else negsuc (2 ^ 32 - n % 2 ^ 32 - 1)

-- `0XFFFFFFFFL`.
abbrev pub unnumbered : ℕ
unnumbered = 0xFFFFFFFF

unfoldable pub base_error : String → ℤ → String → String → BaseError
base_error f l fn err_str = record {
  what = err_str;
  err_no = to_int unnumbered;
  l = l;
  f = f;
  fn = fn;
}

unfoldable pub base_error_no : String → ℤ → String → ℤ → String → BaseError
base_error_no f l fn err_no err_str = record {
  what = err_str;
  err_no = err_no;
  l = l;
  f = f;
  fn = fn;
}

-- `MY_THROW_A`, `MY_THROW_C` and `MY_THROW_B`: the constructors of `function_error`.
unfoldable pub throw_a : String → ℤ → String → String → FunctionError
throw_a f l fn err_str = record { base = base_error f l fn err_str; fn_str = "" }

unfoldable pub throw_c : String → ℤ → String → String → String → FunctionError
throw_c f l fn fn_str err_str = record { base = base_error f l fn err_str; fn_str = fn_str }

unfoldable pub throw_b : String → ℤ → String → String → ℤ → String → FunctionError
throw_b f l fn fn_str err_no err_str = record {
  base = base_error_no f l fn err_no err_str;
  fn_str = fn_str;
}

-- `long` has 64 bits under Linux and 32 under Windows.
pub data Long : Type 0 where
  long32 : Long
  long64 : Long

-- An `int` that is converted to `unsigned long` of 32 bits.
unfoldable pub to_unsigned32 : ℤ → ℕ
to_unsigned32 (pos n) = n % 2 ^ 32
to_unsigned32 (negsuc n) = 2 ^ 32 - 1 - n % 2 ^ 32

abbrev pub same_number : ℤ → ℤ → Bool
same_number (pos m) (pos n) = m == n
same_number (pos m) (negsuc n) = false
same_number (negsuc m) (pos n) = false
same_number (negsuc m) (negsuc n) = m == n

-- `e.err_no_ == 0XFFFFFFFFL`: where `long` has 64 bits the literal is the `long` 4294967295; else
-- it does not fit `long`, and both sides are `unsigned long`.
unfoldable pub is_unnumbered : Long → ℤ → Bool
is_unnumbered long32 n = to_unsigned32 n == unnumbered
is_unnumbered long64 n = same_number n (pos unnumbered)

abbrev pub is_empty : String → Bool
is_empty String.[] = true
is_empty (String.◌∷◌ _ _) = false

module _ (u : Utils) where
  -- ` __FILE__(__LINE__) `, before the rest of the stream.
  abbrev pub place : BaseError → String → String
  place b rest = " " ++ u.trim_file b.f ++ "(" ++ u.print b.l ++ ") " ++ rest

  -- `MY_TRACE_A` and `MY_TRACE_B`, which throw and catch on the spot.
  unfoldable pub trace_a : String → String → String → ℤ → String → String
  trace_a name err_str f l fn =
      let e = base_error f l fn err_str in
      "TRACE[ " ++ name ++ " ] " ++ e.what ++ place e (u.trim_func e.fn)

  unfoldable pub trace_b : String → ℤ → String → String → ℤ → String → String
  trace_b name err_no err_str f l fn =
      let e = base_error_no f l fn err_no err_str in
      "TRACE[ " ++ name ++ "(" ++ u.print e.err_no ++ ") ] " ++ e.what ++ place e (u.trim_func e.fn)

  unfoldable pub func_catch : Long → FunctionError → String
  func_catch w e =
      let b = e.base in
      if is_unnumbered w b.err_no
      then if is_empty e.fn_str
        then "EXCEPTION: " ++ b.what ++ place b (u.trim_func b.fn)
        else "EXCEPTION: " ++ e.fn_str ++ " " ++ b.what ++ place b b.fn
      else "EXCEPTION: "
        ++ e.fn_str
        ++ "("
        ++ u.print b.err_no
        ++ ") "
        ++ b.what
        ++ place b (u.trim_func b.fn)

-- What a body throws: a function_error, another std::exception, or anything else.
pub data Thrown : Type 0 where
  function_error : FunctionError → Thrown
  exception : String → Thrown
  anything : Thrown

-- `MY_CATCH`: the text that `Fatal` is given by the first handler that fits.
unfoldable pub my_catch : Utils → Long → Thrown → String
my_catch u w (function_error e) = func_catch u w e
my_catch u w (exception what) = "EXCEPTION: " ++ what
my_catch u w anything = "EXCEPTION: unknown error"
