-- ===== src/Gate/Repair/Container.antt =====
-- Framework/game_gate/clients/Container.h, `Container`: the nodes of one kind, of which some are
-- under repair. The `Connector` has no body here: it is what it answers. `add` and `process` have
-- none either.
use cppserver.Prelude.{ℕ, Bool, List, Option, some, String, ◌>>=◌}
use cppserver.Prelude.Int.{ℤ}
use cppserver.Prelude.Maps.{string_key}
use cppserver.Gate.Repair
use cppserver.Gate.Repair.{Names}

pub data ContainTy : Type 0 where
  gate_ty : ContainTy
  hall_ty : ContainTy
  game_ty : ContainTy

pub record Connector : Type 0 where
  pub exists : String → Bool
  pub count : ℕ

pub record Container : Type 0 where
  pub repairs : Names
  pub ty : ContainTy
  pub clients : Connector
  pub names : List String

unfoldable pub exist : String → Container → Bool
exist name c = c.clients.exists name

unfoldable pub count : Container → ℕ
count c = c.clients.count

unfoldable pub repair : Bool → String → Container → Option Container
repair debug name c = do
  repairs ← Repair.add debug name c.repairs
  some (record c { repairs = repairs })

unfoldable pub recover : String → Container → Container
recover name c = record c { repairs = Repair.remove name c.repairs }

unfoldable pub is_repairing : String → Container → Bool
is_repairing name c = Repair.exist name c.repairs

unfoldable pub remaining : Container → ℤ
remaining c = Repair.remaining (count c) c.repairs
