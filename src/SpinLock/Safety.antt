-- ===== src/SpinLock/Safety.antt =====
-- thirdpart/Logger/src/lock/impl/SpinLockImpl.h: what holds in every reachable state.
use cppserver.Prelude.{ℕ, ◌+◌, ◌≤◌, ◌≡◌, ◌≢◌, sym, ◌∙◌, true, false, if◌then◌else◌, arith}
use cppserver.SpinLock.{
  outside, asleep, woken, SpinLock, update, test, expire, notify_none, notify_one, Step, call,
  resume, spurious, timeout, signal, silent, Reach, start, later,
}

true-ne-false : true ≢ false
true-ne-false h = cc

-- The flag is paid for, and while it is set a sleeping thread is not alone.
record Inv (s : SpinLock) : Type 0 where
  paid : s.signals + (if s.sync then 1 else 0) ≤ s.notifies
  awake : s.sync ≡ true → (i : ℕ) → s.place i ≡ asleep → (j : ℕ) × (s.place j ≡ woken)

test-sync : (s : SpinLock) (i : ℕ) → (test s i).sync ≡ false
unfolding test
test-sync s i = ground arith

test_paid :
    (s : SpinLock) (i : ℕ)
    → s.signals + (if s.sync then 1 else 0) ≤ s.notifies
    → (test s i).signals ≤ (test s i).notifies
unfolding test
test_paid s i h = ground arith

test-Inv : (s : SpinLock) (i : ℕ) → Inv s → Inv (test s i)
test-Inv s i v = record {
  paid = rw (test-sync s i) (omega (arith, test_paid s i v.paid));
  awake = λ e. absurd (true-ne-false (sym e ∙ test-sync s i));
}

Step-Inv : {s t : SpinLock} → Step s t → Inv s → Inv t
unfolding expire notify_one notify_none update
Step-Inv (call i h) v = test-Inv _ i v
Step-Inv (resume i h) v = test-Inv _ i v
Step-Inv (spurious i h) v = test-Inv _ i v
Step-Inv {s} (timeout i h) v = record { paid = ground (arith, v.paid); awake = λ e. cc }
Step-Inv {s} (signal i h) v = record {
  paid = ground (arith, v.paid);
  awake = λ e k q. (i, ground arith);
}
Step-Inv {s} (silent h) v = record {
  paid = ground (arith, v.paid);
  awake = λ e k q. absurd (h k q);
}

Reach-Inv : {s : SpinLock} → Reach s → Inv s
Reach-Inv start = record { paid = omega arith; awake = λ e. cc }
Reach-Inv (later r st) = Step-Inv st (Reach-Inv r)

-- However many threads wait, notify and time out, in whatever order: the waits that ended because
-- of the flag, and the flag if it is set, are at most as many as the calls of notify.
pub signals-le-notifies :
    {s : SpinLock} → Reach s → s.signals + (if s.sync then 1 else 0) ≤ s.notifies
signals-le-notifies r = (Reach-Inv r).paid

-- In every reachable state where the flag is set, if a thread is asleep in wait_for then another
-- has been woken, and when that one tests the flag it returns because of it and clears it.
pub no_lost_wakeup :
    {s : SpinLock}
    → Reach s
    → s.sync ≡ true
    → (i : ℕ) → s.place i ≡ asleep
    → (j : ℕ) × (s.place j ≡ woken)
      × ((test s j).place j ≡ outside)
      × ((test s j).sync ≡ false)
      × ((test s j).signals ≡ s.signals + 1)
unfolding test update
no_lost_wakeup r e i h =
    let (j, w) = (Reach-Inv r).awake e i h in (j, w, ground arith, ground arith, ground arith)
