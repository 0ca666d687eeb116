-- ===== src/Texas/Assign.antt =====
-- Games/Game_texas/texas.h: what `operator=` of `handinfo_t` leaves in memory.

use cppserver.Prelude.{ℕ, ◌≡◌, ◌≢◌, false, ◌==◌, ==_iff, if◌then◌else◌, Bool-cases, inl, inr, arith}
use cppserver.Texas.{Hand, Memory, write, reset, copy_ty, copy_cards, copy_vec0, copy_vec1, assign}

pub write_self : (m : Memory) (d : ℕ) (h : Hand) → write m d h d ≡ h
unfolding write
write_self m d h = ground arith

pub write_other : (m : Memory) (d j : ℕ) (h : Hand) → d ≢ j → write m d h j ≡ m j
unfolding write
write_other m d j h n = ground arith

pub assign_other : (m : Memory) (d s j : ℕ) → d ≢ j → assign d s m j ≡ m j
unfolding assign copy_ty copy_cards copy_vec0 copy_vec1
assign_other m d s j n = simp (write_other _ d j _ n)

pub assign_self : (m : Memory) (d : ℕ) → assign d d m d ≡ reset (m d)
unfolding assign copy_ty copy_cards copy_vec0 copy_vec1 reset
assign_self m d = simp write_self

pub assign_copy :
    (m : Memory) (d s : ℕ) → d ≢ s → assign d s m d ≡ record (m s) { chair_id = (m d).chair_id }
unfolding assign copy_ty copy_cards copy_vec0 copy_vec1 reset
assign_copy m d s n = simp (write_self, write_other _ d s _ n)

ne_of : (a b : ℕ) → (a == b) ≡ false → a ≢ b
ne_of a b h = ground arith

-- Assigning one hand to another gives it the type, the cards and the two index lists of the other
-- and leaves its own chair; assigning a hand to itself empties it; no other hand changes.
pub assign-eq :
    (m : Memory) (d s j : ℕ)
    → assign d s m j ≡ (
        if d == j
        then (if d == s then reset (m d) else record (m s) { chair_id = (m d).chair_id })
        else m j)
assign-eq m d s j = elim (Bool-cases (d == j)) [
  | inl at ↦
      let here : d ≡ j = (==_iff d j).0 at in
      rw (at, ← here)
        (elim (Bool-cases (d == s)) [
          | inl e ↦ rw e (rw (← (==_iff d s).0 e) (assign_self m d))
          | inr n ↦ rw n (assign_copy m d s (ne_of d s n))
        ])
  | inr off ↦ rw off (assign_other m d s j (ne_of d j off))
]
