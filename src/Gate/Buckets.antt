-- ===== src/Gate/Buckets.antt =====
-- Framework/game_gate/EntryPtr.h, `Buckets`: the wheel that closes idle connections. It is a
-- circular buffer of sets of entries; an entry lives while a bucket holds it. An entry is a number.
pub mod Timeout
use cppserver.Prelude.{
  ℕ, ◌==◌, Bool, false, true, not, ◌||◌, List, [], ◌∷◌, Option, none, some, assert, ◌>>=◌, ◌>>◌,
  if◌then◌else◌, take, replicate,
}
use cppserver.Prelude.Int.{ℤ}
use cppserver.Gate.World.{World, Weak, lock}

abbrev pub Bucket : Type 0
Bucket = List ℕ

-- The head of `buckets` is the back of the circular buffer, the newest bucket.
pub record Buckets : Type 0 where
  pub interval : ℤ
  pub capacity : ℕ
  pub buckets : List Bucket

-- What the wheel reads outside itself: whether assertions are compiled in, the connections, the
-- weak pointer of each entry, and which connections run on the wheel's own loop.
pub record Loop : Type 0 where
  pub debug : Bool
  pub world : World
  pub weak_conn : ℕ → Weak
  pub on_loop : ℕ → Bool

-- `buckets_.resize(size)` on an empty buffer: its capacity grows to `size`.
unfoldable pub init : ℕ → ℤ → Buckets
init size interval = record { interval = interval; capacity = size; buckets = replicate size [] }

-- `push_back`: a full buffer drops its front, and a buffer of capacity 0 stays empty.
unfoldable pub push_back : Bucket → Buckets → Buckets
push_back bucket b = record b { buckets = take b.capacity (bucket ∷ b.buckets) }

-- The new wheel, and the delay after which the timer calls `pop` again.
unfoldable pub pop : Buckets → Buckets × ℤ
pop b = (push_back [] b, b.interval)

unfoldable pub has : ℕ → Bucket → Bool
has e [] = false
has e (d ∷ bucket) = d == e || has e bucket

-- `unordered_set::insert`.
unfoldable pub insert : ℕ → Bucket → Bucket
unfolding has
insert e bucket = if has e bucket then bucket else e ∷ bucket

-- `buckets_.back().insert(entry)`; an empty buffer has no back.
unfoldable pub insert_back : ℕ → Buckets → Option Buckets
insert_back e b = elim b.buckets [
  | [] ↦ none
  | bucket ∷ older ↦ some (record b { buckets = insert e bucket ∷ older })
]

unfoldable pub push : Loop → Option ℕ → Buckets → Option Buckets
push l none b = some b
push l (some e) b = elim (lock l.world (l.weak_conn e)) [
  | none ↦ some b
  | some conn ↦ do assert (not l.debug || l.on_loop conn); insert_back e b
]

-- The source has the text of `push` once more.
unfoldable pub update : Loop → Option ℕ → Buckets → Option Buckets
update l none b = some b
update l (some e) b = elim (lock l.world (l.weak_conn e)) [
  | none ↦ some b
  | some conn ↦ do assert (not l.debug || l.on_loop conn); insert_back e b
]

-- Some bucket holds the entry.
unfoldable pub held : ℕ → List Bucket → Bool
held e [] = false
held e (bucket ∷ older) = has e bucket || held e older
