-- ===== src/Gate/Buckets/Timeout.antt =====
-- Framework/game_gate/EntryPtr.h, `Buckets`: an entry is kept for exactly as many ticks as the
-- wheel has buckets since it was last pushed or updated.
use mathlib.Core.Option
use cppserver.Prelude.{
  ℕ, zero, suc, ◌<◌, ◌≡◌, refl, ◌==◌, Bool, false, true, not, ◌&&◌, ◌||◌, List, [], ◌∷◌, Option,
  none, some, if◌then◌else◌, length, length-replicate, length-take, take, replicate, arith, ltb,
  is_some, ◌>>=◌, Option-cases, inl, inr, ap,
}
use cppserver.Prelude.Int.{ℤ}
use cppserver.Gate.World.{World, lock}
use cppserver.Gate.Buckets.{
  Bucket, Buckets, Loop, init, push_back, pop, has, insert, insert_back, push, update, held,
}

-- What happens on the loop: the timer, a new connection, a message of a connection.
pub data Event : Type 0 where
  ticks : Event
  pushes : Option ℕ → Event
  updates : Option ℕ → Event

unfoldable pub step : Loop → Event → Buckets → Option Buckets
step l ticks b = some (pop b).0
step l (pushes e) b = push l e b
step l (updates e) b = update l e b

-- The loop while the connections are as the world says.
abbrev pub during : Loop → World → Loop
during l w = record l { world = w }

-- Each event comes with the connections that are alive then.
unfoldable pub run : Loop → List (World × Event) → Buckets → Option Buckets
run l [] b = some b
run l (ev ∷ es) b = step (during l ev.0) ev.1 b >>= run l es

-- The ticks since the entry was last touched while its connection lived; `none` is never.
unfoldable pub touched : Loop → ℕ → Option ℕ → Bool
touched l e none = false
touched l e (some d) = is_some (lock l.world (l.weak_conn d)) && d == e

unfoldable pub age_step : Loop → ℕ → Event → Option ℕ → Option ℕ
age_step l e ticks age = Option.map suc age
age_step l e (pushes d) age = if touched l e d then some 0 else age
age_step l e (updates d) age = if touched l e d then some 0 else age

unfoldable pub age : Loop → ℕ → List (World × Event) → Option ℕ → Option ℕ
age l e [] a = a
age l e (ev ∷ es) a = age l e es (age_step (during l ev.0) e ev.1 a)

-- How far from the newest bucket the entry stands.
depth : ℕ → List Bucket → Option ℕ
depth e [] = none
depth e (bucket ∷ older) = if has e bucket then some 0 else Option.map suc (depth e older)

cut : ℕ → Option ℕ → Option ℕ
cut n none = none
cut n (some k) = if ltb k n then some k else none

held-depth : (e : ℕ) (bs : List Bucket) → held e bs ≡ is_some (depth e bs)
unfolding held depth
held-depth e [] = refl
held-depth e (b ∷ bs) = ground (arith, held-depth e bs)

depth-take : (e n : ℕ) (bs : List Bucket) → depth e (take n bs) ≡ cut n (depth e bs)
unfolding depth cut
depth-take e zero [] = refl
depth-take e zero (b ∷ bs) = ground arith
depth-take e (suc n) [] = refl
depth-take e (suc n) (b ∷ bs) = ground (arith, depth-take e n bs)

has-insert : (e d : ℕ) (b : Bucket) → has e (insert d b) ≡ (d == e || has e b)
unfolding insert has
has-insert e d b = ground arith

depth-empty : (e n : ℕ) → depth e (replicate n []) ≡ none
unfolding depth has
depth-empty e zero = refl
depth-empty e (suc n) = rw (depth-empty e n)

-- The wheel is full of buckets, and shows the age of the entry as far as it reaches.
record Shows (e size : ℕ) (a : Option ℕ) (b : Buckets) : Type 0 where
  capacity : b.capacity ≡ size
  filled : length b.buckets ≡ size
  shown : depth e b.buckets ≡ cut size a

init-Shows : (e size : ℕ) (interval : ℤ) → Shows e size none (init size interval)
unfolding init cut
init-Shows e size interval = record {
  capacity = refl;
  filled = length-replicate size [];
  shown = depth-empty e size;
}

pop-Shows :
    (e size : ℕ) (a : Option ℕ) (b : Buckets)
    → Shows e size a b
    → Shows e size (Option.map suc a) (pop b).0
unfolding pop push_back cut depth has
pop-Shows e size a b s = record {
  capacity = s.capacity;
  filled = omega (arith, length-take b.capacity ([] ∷ b.buckets));
  shown = ground (arith, depth-take e b.capacity ([] ∷ b.buckets));
}

-- What a push or an update does to the wheel if it reaches the buffer's back.
insert_back-Shows :
    (e d size : ℕ) (a : Option ℕ) (b : Buckets) (bs : List Bucket)
    → b.buckets ≡ bs
    → 0 < size
    → Shows e size a b
    → (b' : Buckets) × (insert_back d b ≡ some b') × Shows e size (if d == e then some 0 else a) b'
insert_back-Shows e d size a b [] full pos s = absurd (omega (arith, ap length full))
insert_back-Shows e d size a b (bucket ∷ older) full pos s = (
  record b { buckets = insert d bucket ∷ older },
  unfold insert_back in (rw (full, insert_back)),
  record {
    capacity = s.capacity;
    filled = omega (arith, ap length full);
    shown = unfold depth cut in (ground (arith, has-insert e d bucket));
  },
)

push-Shows :
    (l : Loop) (e : ℕ) (d : Option ℕ) (size : ℕ) (a : Option ℕ) (b : Buckets)
    → ((c : ℕ) → (not l.debug || l.on_loop c) ≡ true)
    → 0 < size
    → Shows e size a b
    → (b' : Buckets) × (push l d b ≡ some b')
      × Shows e size (if touched l e d then some 0 else a) b'
unfolding push touched
push-Shows l e none size a b home pos s = (b, refl, s)
push-Shows l e (some d) size a b home pos s = elim (Option-cases (lock l.world (l.weak_conn d))) [
  | inl dead ↦ (b, rw (dead, push), rw (dead, touched) s)
  | inr (c, live) ↦
      rw (live, push, touched, home c) (insert_back-Shows e d size a b b.buckets refl pos s)
]

-- The second text of `push` does the same.
update-push : (l : Loop) (d : Option ℕ) (b : Buckets) → update l d b ≡ push l d b
unfolding update push
update-push l none b = refl
update-push l (some d) b = refl

step-Shows :
    (l : Loop) (e : ℕ) (ev : Event) (size : ℕ) (a : Option ℕ) (b : Buckets)
    → ((c : ℕ) → (not l.debug || l.on_loop c) ≡ true)
    → 0 < size
    → Shows e size a b
    → (b' : Buckets) × (step l ev b ≡ some b') × Shows e size (age_step l e ev a) b'
unfolding step age_step
step-Shows l e ticks size a b home pos s = ((pop b).0, refl, pop-Shows e size a b s)
step-Shows l e (pushes d) size a b home pos s = push-Shows l e d size a b home pos s
step-Shows l e (updates d) size a b home pos s =
    rw (update-push l d b) (push-Shows l e d size a b home pos s)

run-Shows :
    (l : Loop) (e : ℕ) (es : List (World × Event)) (size : ℕ) (a : Option ℕ) (b : Buckets)
    → ((c : ℕ) → (not l.debug || l.on_loop c) ≡ true)
    → 0 < size
    → Shows e size a b
    → (b' : Buckets) × (run l es b ≡ some b') × Shows e size (age l e es a) b'
unfolding run age
run-Shows l e [] size a b home pos s = (b, refl, s)
run-Shows l e (ev ∷ es) size a b home pos s =
    let (b1, stepped, s1) = step-Shows (during l ev.0) e ev.1 size a b home pos s in
    rw stepped (run-Shows l e es size (age_step (during l ev.0) e ev.1 a) b1 home pos s1)

-- Of a wheel of at least one bucket, whose connections run on its loop (or in a release build),
-- after any events, while connections live and die between them as they like: no step faults, and
-- an entry is held exactly if fewer ticks than the wheel has buckets have passed since it was
-- last pushed or updated with its connection alive at that time.
pub held-run :
    (l : Loop) (e : ℕ) (es : List (World × Event)) (size : ℕ) (interval : ℤ)
    → ((c : ℕ) → (not l.debug || l.on_loop c) ≡ true)
    → 0 < size
    → (b : Buckets) × (run l es (init size interval) ≡ some b)
      × (held e b.buckets ≡ elim (age l e es none) [ none ↦ false | some ticked ↦ ltb ticked size ])
unfolding cut
held-run l e es size interval home pos =
    let (b, ran, s) = run-Shows l e es size none _ home pos (init-Shows e size interval) in
    (b, ran, ground (arith, held-depth e b.buckets))
