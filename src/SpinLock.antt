-- ===== src/SpinLock.antt =====
-- thirdpart/Logger/src/lock/impl/SpinLockImpl.h: a flag behind a mutex and a condition variable.
-- Each step is what a thread does between taking the mutex and releasing it. When a wait expires,
-- and which sleeping thread a `notify_one` wakes, is open, and a thread may wake for no reason.
pub mod Safety
use mathlib.Core.Logic.{ite}
use native.Mathlib.Decide.{ℕ_discrete}
use cppserver.Prelude.{ℕ, ◌+◌, ◌≡◌, ◌≢◌, Bool, true, false, if◌then◌else◌}

-- Where a thread is: not in `wait`, in `wait_for`, or back from it and about to test the flag.
pub data Place : Type 0 where
  outside : Place
  asleep : Place
  woken : Place

-- `notifies` counts the calls of `notify`, `signals` the waits that ended because of the flag.
pub record SpinLock : Type 0 where
  pub sync : Bool
  pub place : ℕ → Place
  pub notifies : ℕ
  pub signals : ℕ

unfoldable pub update : (ℕ → Place) → ℕ → Place → ℕ → Place
unfolding ℕ_discrete
update f i p j = ite (ℕ_discrete i j) p (f j)

abbrev pub init : SpinLock
init = record { sync = false; place = λ i. outside; notifies = 0; signals = 0 }

-- The head of the loop, `while (!sync_)`: leave and clear the flag, or go to sleep.
unfoldable pub test : SpinLock → ℕ → SpinLock
test s i =
    if s.sync
    then record s { sync = false; place = update s.place i outside; signals = s.signals + 1 }
    else record s { place = update s.place i asleep }

-- `wait_for` timed out: `break`, then the flag is cleared.
unfoldable pub expire : SpinLock → ℕ → SpinLock
expire s i = record s { sync = false; place = update s.place i outside }

-- `notify` where no thread sleeps, and where the thread is the one that is woken.
unfoldable pub notify_none : SpinLock → SpinLock
notify_none s = record s { sync = true; notifies = s.notifies + 1 }

unfoldable pub notify_one : SpinLock → ℕ → SpinLock
notify_one s i = record s { sync = true; place = update s.place i woken; notifies = s.notifies + 1 }

pub data Step (s : SpinLock) : SpinLock → Type 0 where
  call : (i : ℕ) → s.place i ≡ outside → Step s (test s i)
  resume : (i : ℕ) → s.place i ≡ woken → Step s (test s i)
  spurious : (i : ℕ) → s.place i ≡ asleep → Step s (test s i)
  timeout : (i : ℕ) → s.place i ≢ outside → Step s (expire s i)
  signal : (i : ℕ) → s.place i ≡ asleep → Step s (notify_one s i)
  silent : ((i : ℕ) → s.place i ≢ asleep) → Step s (notify_none s)

pub data Reach : SpinLock → Type 0 where
  start : Reach init
  later : {s t : SpinLock} → Reach s → Step s t → Reach t
