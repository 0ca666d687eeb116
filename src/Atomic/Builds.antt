-- ===== src/Atomic/Builds.antt =====
-- thirdpart/Logger/src/atomic/Atomic.h: the two builds against each other.
use cppserver.Prelude.{ℕ, ◌+◌, ◌≡◌, refl, List, [], ◌∷◌}
use cppserver.Atomic.{wrap, negated}
use cppserver.Atomic.Windows
use cppserver.Atomic.Linux

pub data Op : Type 0 where
  incr decr : Op
  add sub assign : ℕ → Op

module _ (w : ℕ) where
  unfoldable pub on_windows : Op → ℕ → ℕ × ℕ
  unfolding Windows.atom_incr Windows.atom_decr Windows.atom_add Windows.atom_sub
      Windows.atom_assign
  on_windows incr i = Windows.atom_incr w i
  on_windows decr i = Windows.atom_decr w i
  on_windows (add val) i = Windows.atom_add w i val
  on_windows (sub val) i = Windows.atom_sub w i val
  on_windows (assign val) i = Windows.atom_assign w i val

  unfoldable pub on_linux : Op → ℕ → ℕ × ℕ
  unfolding Linux.atom_incr Linux.atom_decr Linux.atom_add Linux.atom_sub Linux.atom_assign
  on_linux incr i = Linux.atom_incr w i
  on_linux decr i = Linux.atom_decr w i
  on_linux (add val) i = Linux.atom_add w i val
  on_linux (sub val) i = Linux.atom_sub w i val
  on_linux (assign val) i = Linux.atom_assign w i val

  -- The values of the macros, in their order, and what the variable holds in the end.
  unfoldable pub run : (Op → ℕ → ℕ × ℕ) → List Op → ℕ → List ℕ × ℕ
  run build [] i = ([], i)
  run build (op ∷ ops) i =
      let r = build op i in let rest = run build ops r.1 in (r.0 ∷ rest.0, rest.1)

  -- The value under Linux, from the one under Windows.
  unfoldable pub later : Op → ℕ → ℕ
  later (add val) v = wrap w (v + wrap w val)
  later (sub val) v = wrap w (v + negated w val)
  later _ v = v

  unfoldable pub all_later : List Op → List ℕ → List ℕ
  all_later (op ∷ ops) (v ∷ vs) = later op v ∷ all_later ops vs
  all_later _ _ = []

  step : (op : Op) (i : ℕ) → on_linux op i ≡ (later op (on_windows op i).0, (on_windows op i).1)
  unfolding on_linux on_windows later
  step incr i = refl
  step decr i = refl
  step (add val) i = refl
  step (sub val) i = refl
  step (assign val) i = refl

  -- Whatever macros are applied to a variable one after the other, both builds leave the same
  -- number in it, and give the same values but for those of atom_add and atom_sub: these are the
  -- old number under Windows and the new one under Linux.
  pub run-linux-windows :
      (ops : List Op) (i : ℕ)
      → let windows = run on_windows ops i in
        run on_linux ops i ≡ (all_later ops windows.0, windows.1)
  unfolding run all_later
  run-linux-windows [] i = refl
  run-linux-windows (op ∷ ops) i = rw (step op i, run-linux-windows ops (on_windows op i).1) refl
