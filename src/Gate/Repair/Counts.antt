-- ===== src/Gate/Repair/Counts.antt =====
-- Framework/game_gate/clients/Container.h: the nodes under repair and the number in service.
use cppserver.Prelude.{
  ℕ, ◌+◌, ◌-◌, ◌^◌, ◌<◌, ◌≡◌, Bool, true, false, some, String, arith, if◌then◌else◌,
}
use cppserver.Prelude.Int.{sub_ℕ}
use cppserver.Prelude.Maps.{
  contains, string_key, Distinct, lookup-insert, lookup-erase, length-insert, length-erase,
}
use cppserver.Gate.Repair.{Names, add, remove, exist, count, remaining}

-- Where add of Repair succeeds, the node and those that were under repair are, no others, and the
-- count grows by one if the node was not.
pub exist-add :
    (debug : Bool) (n k : String) (m m' : Names)
    → add debug k m ≡ some m'
    → (exist n m' ≡ (if string_key.beq k n then true else exist n m))
      × (count m' ≡ (if exist k m then count m else count m + 1))
unfolding add exist count contains
exist-add debug n k m m' e = ground (arith, lookup-insert n k true m, length-insert k true m)

-- In a table that has each name once, remove of Repair takes the node out and leaves the others,
-- and the count falls by one if it was in.
pub exist-remove :
    (n k : String) (m : Names)
    → Distinct m
    → (exist n (remove k m) ≡ (if string_key.beq k n then false else exist n m))
      × (count (remove k m) ≡ (if exist k m then count m - 1 else count m))
unfolding remove exist count contains
exist-remove n k m d = ground (
  arith,
  lookup-erase n k m,
  string_key.beq_iff k n,
  length-erase k m {v = true} d,
  length-erase k m {v = false} d,
)

-- The nodes in service are the active ones less those under repair, and negative if fewer are
-- active, as long as both numbers are below 2 ^ 63.
pub remaining-sub :
    (clients : ℕ) (m : Names)
    → clients < 2 ^ 63
    → count m < 2 ^ 63
    → remaining clients m ≡ sub_ℕ clients (count m)
unfolding remaining
remaining-sub clients m hc hm = ground arith
