-- ===== src/Atomic.antt =====
-- thirdpart/Logger/src/atomic/Atomic.h: the macros on a shared number, as they are compiled for
-- Windows and for Linux. A number of `w` bits is its bit pattern (`w` is 32, and 64 for the macros
-- whose name ends in 64). A macro gives its value and what the variable holds after it.
pub mod Windows
pub mod Linux
pub mod Builds
use cppserver.Prelude.{ℕ, ◌-◌, ◌%◌, ◌^◌}

abbrev pub wrap : ℕ → ℕ → ℕ
wrap w n = n % 2 ^ w

-- `-(val)`.
abbrev pub negated : ℕ → ℕ → ℕ
negated w val = wrap w (2 ^ w - wrap w val)
