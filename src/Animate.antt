-- ===== src/Animate.antt =====
-- Games/Game_s13s/AnimatePlay.h: when the animation of each state of a game began and how long it
-- lasts. A slot that nothing has written is `none`, and so is a read of it. A `time_point` is its
-- count of ticks, and `to_time_t` of the standard library is a parameter; the `double`s hold
-- whole seconds, so they are integers here.
pub mod Left
use cppserver.Prelude.{
  ℕ, ◌==◌, List, [], ◌∷◌, Option, none, some, if◌then◌else◌, get_elem?, set, replicate, ◌>>=◌,
}
use cppserver.Prelude.Int.{ℤ, pos, ◌+ℤ◌, ◌-ℤ◌}

pub data State : Type 0 where
  group : State
  open_cards : State
  pre_end : State
  next : State

-- `int(state)`.
abbrev pub slot : State → ℕ
slot group = 0
slot open_cards = 1
slot pre_end = 2
slot next = 3

pub record AnimatePlay : Type 0 where
  pub start_time : List (Option ℤ)
  pub delay_time : List (Option ℤ)

-- A `time_point` begins as the epoch; a `double` of the array begins unwritten.
unfoldable pub init : AnimatePlay
init = record { start_time = replicate 4 (some (pos 0)); delay_time = replicate 4 none }

unfoldable pub add_start_time : State → ℤ → AnimatePlay → AnimatePlay
add_start_time state start a = record a { start_time = set a.start_time (slot state) (some start) }

unfoldable pub add_delay_time : State → ℕ → AnimatePlay → AnimatePlay
add_delay_time state delay a = record a {
  delay_time = set a.delay_time (slot state) (some (pos delay));
}

-- An uninitialised slot is not read.
abbrev pub read {ℓ} : {A : Type ℓ} → Option (Option A) → Option A
read none = none
read (some v) = v

-- `case GAME_STATUS_GROUP` to `GAME_STATUS_NEXT`, of the numbers in TableFrameSink.h.
unfoldable pub get_start_time : (ℤ → ℤ) → ℕ → AnimatePlay → Option ℤ
get_start_time to_time_t status a =
    if status == 101
    then (do t ← read (get_elem? a.start_time 0); some (to_time_t t))
    else if status == 102
    then (do t ← read (get_elem? a.start_time 1); some (to_time_t t))
    else if status == 103
    then (do t ← read (get_elem? a.start_time 2); some (to_time_t t))
    else if status == 201
    then (do t ← read (get_elem? a.start_time 3); some (to_time_t t))
    else some (pos 0)

unfoldable pub get_delay_time : ℕ → AnimatePlay → Option ℤ
get_delay_time status a =
    if status == 101
    then read (get_elem? a.delay_time 0)
    else if status == 102
    then read (get_elem? a.delay_time 1)
    else if status == 103
    then read (get_elem? a.delay_time 2)
    else if status == 201
    then read (get_elem? a.delay_time 3)
    else some (pos 0)

unfoldable pub get_left_time : (ℤ → ℤ) → ℕ → ℤ → AnimatePlay → Option ℤ
get_left_time to_time_t status now a = do
  start ← get_start_time to_time_t status a
  delay ← get_delay_time status a
  some ((start +ℤ delay) -ℤ to_time_t now)
