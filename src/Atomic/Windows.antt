-- ===== src/Atomic/Windows.antt =====
-- thirdpart/Logger/src/atomic/Atomic.h under `_windows_`: `InterlockedIncrement` and
-- `InterlockedDecrement` give the new number, `InterlockedExchangeAdd` and `InterlockedExchange` the
-- old one.
use cppserver.Prelude.{ℕ, ◌+◌}
use cppserver.Atomic.{wrap, negated}

module _ (w : ℕ) where
  unfoldable pub atom_incr : ℕ → ℕ × ℕ
  atom_incr i = (wrap w (i + 1), wrap w (i + 1))

  unfoldable pub atom_decr : ℕ → ℕ × ℕ
  atom_decr i = (wrap w (i + negated w 1), wrap w (i + negated w 1))

  unfoldable pub atom_add : ℕ → ℕ → ℕ × ℕ
  atom_add i val = (i, wrap w (i + wrap w val))

  unfoldable pub atom_sub : ℕ → ℕ → ℕ × ℕ
  atom_sub i val = (i, wrap w (i + negated w val))

  unfoldable pub atom_assign : ℕ → ℕ → ℕ × ℕ
  atom_assign i val = (i, wrap w val)
