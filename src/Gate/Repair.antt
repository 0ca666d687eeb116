-- ===== src/Gate/Repair.antt =====
-- Framework/game_gate/clients/Container.h: the nodes under repair (`Repair`) and the part of
-- `Container` that stands on them. The rpc containers of the other servers hold the same code. The
-- `Connector` behind `clients_` has no body here: its `count` is an argument.
pub mod Counts
pub mod Container
pub mod Service
use cppserver.Prelude.{
  ℕ, ◌+◌, ◌-◌, ◌^◌, ◌%◌, Bool, true, not, ◌||◌, List, Option, none, some, String, assert, ◌>>=◌,
  ◌>>◌, length, ltb, if◌then◌else◌,
}
use cppserver.Prelude.Int.{ℤ, pos, negsuc}
use cppserver.Prelude.Maps.{lookup, insert, erase, contains, string_key}

abbrev pub Names : Type 0
Names = List (String × Bool)

unfoldable pub add : Bool → String → Names → Option Names
add debug name names = do
  assert (not debug || not (contains name names))
  some (insert name true names)

unfoldable pub remove : String → Names → Names
remove name names = elim (lookup name names) [ none ↦ names | some b ↦ erase name names ]

unfoldable pub exist : String → Names → Bool
exist name names = contains name names

unfoldable pub count : Names → ℕ
count names = length names

-- A 64-bit pattern read as `ssize_t`.
unfoldable pub to_signed : ℕ → ℤ
to_signed n = if ltb n (2 ^ 63) then pos n else negsuc (2 ^ 64 - n - 1)

-- `clients_->count() - repair_.count()`: a difference of two `size_t`, returned as `ssize_t`.
unfoldable pub remaining : ℕ → Names → ℤ
unfolding count to_signed
remaining clients names = to_signed ((clients + 2 ^ 64 - count names) % 2 ^ 64)
