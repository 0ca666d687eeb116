-- ===== src/Animate/Left.antt =====
-- Games/Game_s13s/AnimatePlay.h, `Get_LEFT_time`: what is left after any calls.
use cppserver.Prelude.{
  ℕ, zero, suc, ◌≡◌, refl, ap, ◌∙◌, ◌==◌, List, [], ◌∷◌, Option, none, some, if◌then◌else◌,
  get_elem?, set, length, arith, ◌>>=◌, ◌<◌, Bool-cases, inl, inr,
}
use cppserver.Prelude.Int.{ℤ, pos, ◌+ℤ◌, ◌-ℤ◌}
use cppserver.Animate.{
  State, group, open_cards, pre_end, next, slot, AnimatePlay, add_start_time, add_delay_time, read,
  get_start_time, get_delay_time, get_left_time,
}

-- The state that a status stands for.
abbrev pub state_of : ℕ → Option State
state_of status =
    if status == 101
    then some group
    else if status == 102
    then some open_cards
    else if status == 103
    then some pre_end
    else if status == 201
    then some next
    else none

pub data Call : Type 0 where
  starts : State → ℤ → Call
  delays : State → ℕ → Call

unfoldable pub run : List Call → AnimatePlay → AnimatePlay
run [] a = a
run (starts e t ∷ calls) a = run calls (add_start_time e t a)
run (delays e d ∷ calls) a = run calls (add_delay_time e d a)

-- The last start and the last length that were set for a state, or what there was.
unfoldable pub last_start : State → List Call → Option ℤ → Option ℤ
last_start e [] old = old
last_start e (starts f t ∷ calls) old =
    last_start e calls (if slot f == slot e then some t else old)
last_start e (delays f d ∷ calls) old = last_start e calls old

unfoldable pub last_delay : State → List Call → Option ℤ → Option ℤ
last_delay e [] old = old
last_delay e (starts f t ∷ calls) old = last_delay e calls old
last_delay e (delays f d ∷ calls) old =
    last_delay e calls (if slot f == slot e then some (pos d) else old)

pub record HasSlots (a : AnimatePlay) : Type 0 where
  pub starts_4 : length a.start_time ≡ 4
  pub delays_4 : length a.delay_time ≡ 4

length-set : (xs : List (Option ℤ)) (i : ℕ) (v : Option ℤ) → length (set xs i v) ≡ length xs
length-set [] i v = refl
length-set (x ∷ xs) zero v = refl
length-set (x ∷ xs) (suc i) v = ap suc (length-set xs i v)

HasSlots-start :
    (e : State) (t : ℤ) (a : AnimatePlay) → HasSlots a → HasSlots (add_start_time e t a)
unfolding add_start_time
HasSlots-start e t a h = record {
  starts_4 = length-set a.start_time (slot e) (some t) ∙ h.starts_4;
  delays_4 = h.delays_4;
}

HasSlots-delay :
    (e : State) (d : ℕ) (a : AnimatePlay) → HasSlots a → HasSlots (add_delay_time e d a)
unfolding add_delay_time
HasSlots-delay e d a h = record {
  starts_4 = h.starts_4;
  delays_4 = length-set a.delay_time (slot e) (some (pos d)) ∙ h.delays_4;
}

read-set :
    (xs : List (Option ℤ)) (v : ℤ) (i j : ℕ)
    → i < length xs
    → read (get_elem? (set xs i (some v)) j) ≡ (if i == j then some v else read (get_elem? xs j))
read-set [] v i j h = absurd (omega arith)
read-set (x ∷ xs) v zero zero h = refl
read-set (x ∷ xs) v zero (suc j) h = ground arith
read-set (x ∷ xs) v (suc i) zero h = ground arith
read-set (x ∷ xs) v (suc i) (suc j) h = ground (arith, read-set xs v i j)

slot-lt : (f : State) → slot f < 4
slot-lt group = omega arith
slot-lt open_cards = omega arith
slot-lt pre_end = omega arith
slot-lt next = omega arith

read-set-slot :
    (xs : List (Option ℤ)) (v : ℤ) (e f : State)
    → length xs ≡ 4
    → read (get_elem? (set xs (slot f) (some v)) (slot e))
      ≡ (if slot f == slot e then some v else read (get_elem? xs (slot e)))
read-set-slot xs v e f h = read-set xs v (slot f) (slot e) (omega (arith, slot-lt f))

pub start-run :
    (e : State) (calls : List Call) (a : AnimatePlay)
    → HasSlots a
    → read (get_elem? (run calls a).start_time (slot e))
      ≡ last_start e calls (read (get_elem? a.start_time (slot e)))
unfolding run last_start add_start_time add_delay_time
start-run e [] a h = refl
start-run e (starts f t ∷ calls) a h =
    start-run e calls _ (HasSlots-start f t a h)
    ∙ ap (last_start e calls) (read-set-slot a.start_time t e f h.starts_4)
start-run e (delays f d ∷ calls) a h = start-run e calls _ (HasSlots-delay f d a h)

delay-run :
    (e : State) (calls : List Call) (a : AnimatePlay)
    → HasSlots a
    → read (get_elem? (run calls a).delay_time (slot e))
      ≡ last_delay e calls (read (get_elem? a.delay_time (slot e)))
unfolding run last_delay add_start_time add_delay_time
delay-run e [] a h = refl
delay-run e (starts f t ∷ calls) a h = delay-run e calls _ (HasSlots-start f t a h)
delay-run e (delays f d ∷ calls) a h =
    delay-run e calls _ (HasSlots-delay f d a h)
    ∙ ap (last_delay e calls) (read-set-slot a.delay_time (pos d) e f h.delays_4)

-- The start in seconds, then the rest.
bind_start :
    (to_time_t : ℤ → ℤ) (now : ℤ) (start delay : Option ℤ)
    → ((start >>= λ t. some (to_time_t t)) >>= λ s. delay >>= λ d. some ((s +ℤ d) -ℤ to_time_t now))
      ≡ (start >>= λ t. delay >>= λ d. some ((to_time_t t +ℤ d) -ℤ to_time_t now))
bind_start to_time_t now none delay = refl
bind_start to_time_t now (some t) delay = refl

-- What is left of the animation of a state.
abbrev pub left_of : (ℤ → ℤ) → ℤ → List Call → AnimatePlay → State → Option ℤ
left_of to_time_t now calls a e = do
  t ← last_start e calls (read (get_elem? a.start_time (slot e)))
  d ← last_delay e calls (read (get_elem? a.delay_time (slot e)))
  some ((to_time_t t +ℤ d) -ℤ to_time_t now)

left-slot :
    (to_time_t : ℤ → ℤ) (now : ℤ) (calls : List Call) (a : AnimatePlay) (e : State)
    → HasSlots a
    → ((read (get_elem? (run calls a).start_time (slot e)) >>= λ t. some (to_time_t t)) >>= λ s.
        read (get_elem? (run calls a).delay_time (slot e)) >>= λ d.
        some ((s +ℤ d) -ℤ to_time_t now))
      ≡ left_of to_time_t now calls a e
left-slot to_time_t now calls a e h =
    rw (start-run e calls a h, delay-run e calls a h)
      (bind_start to_time_t now (last_start e calls (read (get_elem? a.start_time (slot e))))
        (last_delay e calls (read (get_elem? a.delay_time (slot e)))))

-- After any calls that set starts and lengths, on slots of which there are four, the time left of
-- a state of the game is its last start in seconds and its last length less the present in
-- seconds, where one that was not set by a call is what the slot had before; any other number of
-- a state counts from zero.
pub get_left_time-run :
    (to_time_t : ℤ → ℤ) (status : ℕ) (now : ℤ) (calls : List Call) (a : AnimatePlay)
    → HasSlots a
    → get_left_time to_time_t status now (run calls a) ≡ elim (state_of status) [
      | none ↦ some ((pos 0 +ℤ pos 0) -ℤ to_time_t now)
      | some e ↦ left_of to_time_t now calls a e
    ]
unfolding get_left_time get_start_time get_delay_time
get_left_time-run to_time_t status now calls a h = elim (Bool-cases (status == 101)) [
  | inl e ↦ rw e (left-slot to_time_t now calls a group h)
  | inr n1 ↦ elim (Bool-cases (status == 102)) [
    | inl e ↦ rw (n1, e) (left-slot to_time_t now calls a open_cards h)
    | inr n2 ↦ elim (Bool-cases (status == 103)) [
      | inl e ↦ rw (n1, n2, e) (left-slot to_time_t now calls a pre_end h)
      | inr n3 ↦ elim (Bool-cases (status == 201)) [
        | inl e ↦ rw (n1, n2, n3, e) (left-slot to_time_t now calls a next h)
        | inr n4 ↦ rw (n1, n2, n3, n4) refl
      ]
    ]
  ]
]
