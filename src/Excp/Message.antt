-- ===== src/Excp/Message.antt =====
-- thirdpart/Logger/src/excp/excp.h: the message of each macro that throws, by the width of `long`.
use Prim.Native.String.{String, ◌++◌}
use cppserver.Prelude.{zero, suc, ◌^◌, ◌<◌, ◌≡◌, ◌≢◌, refl, false, arith}
use cppserver.Prelude.Int.{ℤ, pos, negsuc}
use cppserver.Excp.{
  Utils, to_int, base_error, base_error_no, throw_a, throw_c, throw_b, long32, long64,
  to_unsigned32, is_unnumbered, is_empty, func_catch, function_error, my_catch,
}

abbrev pub IsInt : ℤ → Type 0
IsInt (pos n) = n < 2 ^ 31
IsInt (negsuc n) = n < 2 ^ 31

-- The forms of the comment above MY_TRY, and the one with a name alone.
abbrev pub plain : Utils → String → ℤ → String → String → String
plain u f l fn err =
    "EXCEPTION: " ++ err ++ " " ++ u.trim_file f ++ "(" ++ u.print l ++ ") " ++ u.trim_func fn

abbrev pub named : Utils → String → String → ℤ → String → String → String
named u name f l fn err =
    "EXCEPTION: " ++ name ++ " " ++ err ++ " " ++ u.trim_file f ++ "(" ++ u.print l ++ ") " ++ fn

abbrev pub numbered : Utils → String → ℤ → String → ℤ → String → String → String
numbered u name n f l fn err =
    "EXCEPTION: "
    ++ name
    ++ "("
    ++ u.print n
    ++ ") "
    ++ err
    ++ " "
    ++ u.trim_file f
    ++ "("
    ++ u.print l
    ++ ") "
    ++ u.trim_func fn

is_unnumbered-64 : (n : ℤ) → IsInt n → is_unnumbered long64 n ≡ false
unfolding is_unnumbered
is_unnumbered-64 (pos n) h = ground arith
is_unnumbered-64 (negsuc n) h = refl

is_unnumbered-32 : (n : ℤ) → IsInt n → n ≢ negsuc 0 → is_unnumbered long32 n ≡ false
unfolding is_unnumbered to_unsigned32
is_unnumbered-32 (pos n) h d = ground arith
is_unnumbered-32 (negsuc zero) h d = absurd (d refl)
is_unnumbered-32 (negsuc (suc n)) h d = ground arith

-- What MY_CATCH logs of a function_error, for an error number that is an int but not -1 and a
-- name that is not empty. Where long has 64 bits, MY_THROW_A and MY_THROW_C are logged with the
-- number -1, which they were not given. Where it has 32 bits, they are logged without a number,
-- in the forms of the comments and with a name. MY_THROW_B is logged with its number in both.
pub my_catch-messages :
    (u : Utils) (f : String) (l : ℤ) (fn name err : String) (n : ℤ)
    → IsInt n
    → n ≢ negsuc 0
    → is_empty name ≡ false
    → (my_catch u long64 (function_error (throw_a f l fn err))
        ≡ numbered u "" (negsuc 0) f l fn err)
      × (my_catch u long64 (function_error (throw_c f l fn name err))
          ≡ numbered u name (negsuc 0) f l fn err)
      × (my_catch u long64 (function_error (throw_b f l fn name n err))
          ≡ numbered u name n f l fn err)
      × (my_catch u long32 (function_error (throw_a f l fn err)) ≡ plain u f l fn err)
      × (my_catch u long32 (function_error (throw_c f l fn name err)) ≡ named u name f l fn err)
      × (my_catch u long32 (function_error (throw_b f l fn name n err))
          ≡ numbered u name n f l fn err)
unfolding my_catch func_catch throw_a throw_b throw_c base_error base_error_no to_int is_unnumbered
    to_unsigned32
my_catch-messages u f l fn name err n h d e =
    (refl, refl, rw (is_unnumbered-64 n h) refl, refl, rw e refl, rw (is_unnumbered-32 n h d) refl)
