-- ===== src/Tests/Lock.antt =====
-- Tests of the model of thirdpart/Logger/src/lock/impl/SpinLockImpl.h.
use native.Mathlib.Decide.{ℕ_discrete}
use cppserver.Prelude.{ℕ, ◌+◌, ◌≤◌, ◌≡◌, refl, false, if◌then◌else◌}
use cppserver.SpinLock.{
  SpinLock, outside, woken, update, init, test, notify_one, call, resume, signal, Reach, start,
  later,
}
use cppserver.SpinLock.Safety.{signals-le-notifies, no_lost_wakeup}

-- Two threads wait, and the first is woken.
abbrev notified : SpinLock
notified = notify_one (test (test init 0) 1) 0

notified-Reach : Reach notified
unfolding test notify_one update ℕ_discrete
notified-Reach = later (later (later start (call 0 refl)) (call 1 refl)) (signal 0 refl)

returned-Reach : Reach (test notified 0)
unfolding test notify_one update ℕ_discrete
returned-Reach = later notified-Reach (resume 0 refl)

signals-le-notifies_example :
    (test notified 0).signals + (if (test notified 0).sync then 1 else 0)
    ≤ (test notified 0).notifies
signals-le-notifies_example = signals-le-notifies returned-Reach

no_lost_wakeup_example :
    (j : ℕ) × (notified.place j ≡ woken)
    × ((test notified j).place j ≡ outside)
    × ((test notified j).sync ≡ false)
    × ((test notified j).signals ≡ notified.signals + 1)
unfolding test notify_one update ℕ_discrete
no_lost_wakeup_example = no_lost_wakeup notified-Reach refl 1 refl
