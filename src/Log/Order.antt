-- ===== src/Log/Order.antt =====
-- thirdpart/Logger/src/log/Logger.h: what a program that uses the macros asks of the Logger, in
-- which order, and where it ends.
use cppserver.Prelude.{
  ℕ, Bool, true, false, List, [], ◌∷◌, ◌++◌, String, ◌≡◌, refl, if◌then◌else◌, Bool-cases, inl, inr,
}
use cppserver.Log.{Statement, write, write_s, write_fatal_s, wait, abort, Macro, fatalf, fatal}
use cppserver.Log.Families.{Header, Family, expand, call, ending, expand-eq}

-- A use of a macro, with what `getStyle` gives at that time.
pub record Use : Type 0 where
  pub header : Header
  pub style : ℕ
  pub family : Family
  pub name : Macro
  pub message : String

unfoldable pub statements : Use → List Statement
statements u = expand u.header u.style u.family u.name u.message

unfoldable pub program : List Use → List Statement
program [] = []
program (u ∷ us) = statements u ++ program us

-- The statements that are run: `abort` ends the process. Whether `write_fatal_s` returns is not
-- known here.
unfoldable pub execute : Bool → List Statement → List Statement
execute returns [] = []
execute returns (write p f s ∷ rest) = write p f s ∷ execute returns rest
execute returns (write_s p f s ∷ rest) = write_s p f s ∷ execute returns rest
execute returns (write_fatal_s p f s ∷ rest) =
    write_fatal_s p f s ∷ (if returns then execute returns rest else [])
execute returns (wait ∷ rest) = wait ∷ execute returns rest
execute returns (abort ∷ rest) = abort ∷ []

-- The uses up to the first that ends the process.
unfoldable pub stops : Bool → Macro → Bool
stops returns fatalf = true
stops returns fatal = if returns then false else true
stops returns _ = false

unfoldable pub reached : Bool → List Use → List Use
reached returns [] = []
reached returns (u ∷ us) = if stops returns u.name then u ∷ [] else u ∷ reached returns us

abbrev pub made : Use → List Statement
made u = call u.style u.family u.name u.message ∷ ending u.name

unfoldable pub all_made : List Use → List Statement
all_made [] = []
all_made (u ∷ us) = made u ++ all_made us

-- A use is run whole, and the program goes on after it unless it ends there.
pub execute-made :
    (returns : Bool) (u : Use) (m : Macro) (rest : List Statement)
    → u.name ≡ m
    → execute returns (made u ++ rest)
      ≡ made u ++ (if stops returns m then [] else execute returns rest)
unfolding execute call ending stops
execute-made returns u fatalf rest e = rw (e, call) refl
execute-made true u fatal rest e = rw (e, call) refl
execute-made false u fatal rest e = rw (e, call) refl
execute-made returns u m rest e = rw (e, call) refl

pub statements-made : (u : Use) → statements u ≡ made u
unfolding statements
statements-made u = expand-eq u.header u.style u.family u.name u.message

-- Whatever macros of whatever families, of Logger.h or of LoggerImpl.h, a program uses: the
-- process asks the Logger for one call for each use that it reaches, in their order, of the level
-- in the macro's name and with the flag of its family, each followed by what its macro waits for;
-- and it ends at the first Fatalf, or at the first Fatal if write_fatal_s does not return.
pub execute-program :
    (returns : Bool) (us : List Use) → execute returns (program us) ≡ all_made (reached returns us)
unfolding program reached all_made execute
execute-program returns [] = refl
execute-program returns (u ∷ us) =
    rw (statements-made u, execute-made returns u u.name (program us) refl)
      (elim (Bool-cases (stops returns u.name)) [
        | inl ends ↦ rw ends refl
        | inr on ↦ rw (on, execute-program returns us) refl
      ])
