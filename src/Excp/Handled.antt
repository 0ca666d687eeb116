-- ===== src/Excp/Handled.antt =====
-- thirdpart/Logger/src/excp/excp.h, `MY_TRY() … MY_CATCH()`, with `Fatal` of
-- thirdpart/Logger/src/log/Logger.h: what bodies that may throw ask of the Logger.
use Prim.Native.Nat.{bit_or}
use cppserver.Prelude.{
  Option-cases, inl, inr, ℕ, ◌≡◌, refl, ap, ◌∙◌, Bool, true, false, List, [], ◌∷◌, ◌++◌, Option,
  none, some, is_some, if◌then◌else◌, String,
}
use cppserver.Prelude.Int.{ℤ}
use cppserver.Log.{
  lvl_fatal, f_sync, Statement, write, write_s, write_fatal_s, wait, abort, fatal, trace,
}
use cppserver.Log.Families.{logger, plain, expand}
use cppserver.Log.Blocks.{plain_macro}
use cppserver.Log.Order.{execute}
use cppserver.Excp.{Utils, Long, Thrown, my_catch, trace_a, trace_b}

-- A body: what it asks of the Logger, and what it throws in the end, if it does.
pub record Body : Type 0 where
  pub calls : List Statement
  pub thrown : Option Thrown

module _ (u : Utils) (w : Long) (style : ℕ) where
  -- `Fatal(text)` in the handler.
  unfoldable pub caught : Option Thrown → List Statement
  unfolding expand plain_macro
  caught none = []
  caught (some t) = expand logger style plain fatal (my_catch u w t)

  -- Bodies in `MY_TRY()` and `MY_CATCH()`, one after the other.
  unfoldable pub attempts : List Body → List Statement
  unfolding caught
  attempts [] = []
  attempts (b ∷ bs) = b.calls ++ (caught b.thrown ++ attempts bs)

-- `MY_TRACE_A` and `MY_TRACE_B` end in `Trace(text)`.
module _ (u : Utils) (style : ℕ) where
  unfoldable pub my_trace_a : String → String → String → ℤ → String → List Statement
  unfolding expand plain_macro
  my_trace_a name err_str f l fn = expand logger style plain trace (trace_a u name err_str f l fn)

  unfoldable pub my_trace_b : String → ℤ → String → String → ℤ → String → List Statement
  unfolding expand plain_macro
  my_trace_b name err_no err_str f l fn =
      expand logger style plain trace (trace_b u name err_no err_str f l fn)

-- The calls do not end the process.
unfoldable pub is_calm : List Statement → Bool
is_calm [] = true
is_calm (write_fatal_s p f s ∷ rest) = false
is_calm (abort ∷ rest) = false
is_calm (_ ∷ rest) = is_calm rest

abbrev pub AreCalm : List Body → Type 0
AreCalm [] = Unit
AreCalm (b ∷ bs) = (is_calm b.calls ≡ true) × AreCalm bs

-- The bodies that are run: if `write_fatal_s` does not return, those up to the first that throws.
unfoldable pub reached : Bool → List Body → List Body
reached returns [] = []
reached returns (b ∷ bs) =
    b
    ∷ (if returns then reached returns bs else if is_some b.thrown then [] else reached returns bs)

-- What the Logger is asked for when all of these bodies are run.
unfoldable pub asked : Utils → Long → ℕ → List Body → List Statement
asked u w style [] = []
asked u w style (b ∷ bs) = b.calls ++ elim b.thrown [
  | none ↦ asked u w style bs
  | some t ↦
      write_fatal_s (record { level = lvl_fatal; stack = true }) (bit_or style f_sync)
        (my_catch u w t)
      ∷ asked u w style bs
]

execute-calm :
    (returns : Bool) (calls rest : List Statement)
    → is_calm calls ≡ true
    → execute returns (calls ++ rest) ≡ calls ++ execute returns rest
unfolding execute is_calm
execute-calm returns [] rest h = refl
execute-calm returns (write p f s ∷ calls) rest h =
    ap (◌∷◌ (write p f s)) (execute-calm returns calls rest h)
execute-calm returns (write_s p f s ∷ calls) rest h =
    ap (◌∷◌ (write_s p f s)) (execute-calm returns calls rest h)
execute-calm returns (write_fatal_s p f s ∷ calls) rest h = cc
execute-calm returns (wait ∷ calls) rest h = ap (◌∷◌ wait) (execute-calm returns calls rest h)
execute-calm returns (abort ∷ calls) rest h = cc

module _ (u : Utils) (w : Long) (style : ℕ) where
  execute-caught :
      (returns : Bool) (thrown : Option Thrown) (rest : List Statement)
      → execute returns (caught u w style thrown ++ rest)
        ≡ caught u w style thrown
          ++ (if returns
              then execute returns rest
              else if is_some thrown
              then []
              else execute returns rest)
  unfolding execute caught
  execute-caught true none rest = refl
  execute-caught false none rest = refl
  execute-caught true (some t) rest = refl
  execute-caught false (some t) rest = refl

  ended :
      (returns throws : Bool) (bs : List Body) (rest : List Statement)
      → rest ≡ attempts u w style bs
      → (if returns then rest else if throws then [] else rest)
        ≡ attempts u w style (if returns then bs else if throws then [] else bs)
  unfolding attempts
  ended true throws bs rest e = e
  ended false true bs rest e = refl
  ended false false bs rest e = e

  execute-reached :
      (returns : Bool) (bs : List Body)
      → AreCalm bs
      → execute returns (attempts u w style bs) ≡ attempts u w style (reached returns bs)
  unfolding attempts reached execute
  execute-reached returns [] h = refl
  execute-reached returns (b ∷ bs) h =
      execute-calm returns b.calls _ h.0
      ∙ ap (◌++◌ b.calls) (
          execute-caught returns b.thrown (attempts u w style bs)
          ∙ ap (◌++◌ (caught u w style b.thrown)) (
              ended returns (is_some b.thrown) (reached returns bs) _
                (execute-reached returns bs h.1)))

  attempts-asked : (bs : List Body) → attempts u w style bs ≡ asked u w style bs
  unfolding attempts asked caught expand plain_macro
  attempts-asked [] = refl
  attempts-asked (b ∷ bs) = elim (Option-cases b.thrown) [
    | inl quiet ↦ rw (quiet, attempts-asked bs) refl
    | inr (t, thrown) ↦ rw (thrown, attempts-asked bs) refl
  ]

  -- Bodies in MY_TRY and MY_CATCH that neither abort nor call Fatal themselves: the Logger is
  -- asked for the calls of each body in turn, and after those of one that throws for a
  -- write_fatal_s of the text of MY_CATCH, with a stack, the style and F_SYNC. If write_fatal_s
  -- returns, all bodies are run; if not, the process stops at the first that throws.
  pub execute-attempts :
      (returns : Bool) (bs : List Body)
      → AreCalm bs
      → execute returns (attempts u w style bs) ≡ asked u w style (reached returns bs)
  execute-attempts returns bs h = execute-reached returns bs h ∙ attempts-asked (reached returns bs)
