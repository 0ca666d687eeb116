-- ===== src/Texas.antt =====
-- Games/Game_texas/texas.h: `handinfo_t` and `classify_t`. The hands of a table stand in memory by
-- their address, since the assignment of a hand to itself is among the calls.
pub mod Assign
use mathlib.Core.Logic.{ite}
use native.Mathlib.Decide.{ℕ_discrete}
use cppserver.Prelude.{ℕ, List, [], ◌++◌, Option, none}
use cppserver.Prelude.Int.{ℤ}

pub data HandTy : Type 0 where
  tysp : HandTy
  ty20 : HandTy
  ty22 : HandTy
  ty30 : HandTy
  ty123 : HandTy
  tysc : HandTy
  ty32 : HandTy
  ty40 : HandTy
  ty123sc : HandTy
  ty123sc_royal : HandTy
  ty_all : HandTy

-- `handinfo_t`; a `none` is a value that nothing has written.
pub record Hand : Type 0 where
  pub ty : HandTy
  pub cards : List ℕ
  pub vec0 : List ℤ
  pub vec1 : List ℤ
  pub chair_id : Option ℕ

abbrev pub Memory : Type 0
Memory = ℕ → Hand

unfoldable pub write : Memory → ℕ → Hand → Memory
unfolding ℕ_discrete
write m d h j = ite (ℕ_discrete d j) h (m j)

-- `Reset` leaves the chair alone.
unfoldable pub reset : Hand → Hand
reset h = record h { ty = tysp; cards = []; vec0 = []; vec1 = [] }

-- The constructor.
unfoldable pub init : Hand
init = record { ty = tysp; cards = []; vec0 = []; vec1 = []; chair_id = none }

-- The statements of `operator=` one by one, each reading the memory that the one before it left.
unfoldable pub copy_ty : ℕ → ℕ → Memory → Memory
copy_ty d s m = write m d (record (m d) { ty = (m s).ty })

unfoldable pub copy_cards : ℕ → ℕ → Memory → Memory
copy_cards d s m = write m d (record (m d) { cards = (m d).cards ++ (m s).cards })

unfoldable pub copy_vec0 : ℕ → ℕ → Memory → Memory
copy_vec0 d s m = write m d (record (m d) { vec0 = (m d).vec0 ++ (m s).vec0 })

unfoldable pub copy_vec1 : ℕ → ℕ → Memory → Memory
copy_vec1 d s m = write m d (record (m d) { vec1 = (m d).vec1 ++ (m s).vec1 })

unfoldable pub assign : ℕ → ℕ → Memory → Memory
assign d s m =
    copy_vec1 d s (copy_vec0 d s (copy_cards d s (copy_ty d s (write m d (reset (m d))))))

-- The copy constructor, into a new hand at the address.
unfoldable pub copy_init : ℕ → ℕ → Memory → Memory
copy_init d s m =
    copy_vec1 d s (copy_vec0 d s (copy_cards d s (copy_ty d s (write m d (reset init)))))
