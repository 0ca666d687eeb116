-- ===== src/Tests/Animate.antt =====
-- Tests of the model of Games/Game_s13s/AnimatePlay.h.
use cppserver.Prelude.{◌/◌, ◌≡◌, refl, [], ◌∷◌, none, some}
use cppserver.Prelude.Int.{ℤ, pos, negsuc, ◌-ℤ◌, ◌+ℤ◌}
use cppserver.Animate.{group, open_cards, init, get_left_time, get_start_time, get_delay_time}
use cppserver.Animate.Left.{
  starts, delays, run, HasSlots, last_start, last_delay, get_left_time-run,
}

abbrev init-HasSlots : HasSlots init
unfolding init
init-HasSlots = record { starts_4 = refl; delays_4 = refl }

-- Milliseconds to seconds.
abbrev seconds : ℤ → ℤ
seconds (pos ms) = pos (ms / 1000)
seconds (negsuc ms) = negsuc (ms / 1000)

get_left_time-run_example :
    get_left_time seconds 102 (pos 9000) (
      run
        (starts open_cards (pos 3000)
          ∷ delays open_cards 8
          ∷ starts group (pos 7000)
          ∷ starts open_cards (pos 5000)
          ∷ [])
        init)
    ≡ some (pos 4)
unfolding last_start last_delay init ◌-ℤ◌ ◌+ℤ◌
get_left_time-run_example =
    get_left_time-run seconds 102 (pos 9000)
      (starts open_cards (pos 3000)
        ∷ delays open_cards 8
        ∷ starts group (pos 7000)
        ∷ starts open_cards (pos 5000)
        ∷ [])
      init init-HasSlots

-- Nothing was written for the state: the read is of an uninitialised slot.
unwritten : get_left_time seconds 101 (pos 9000) init ≡ none
unfolding get_left_time get_start_time get_delay_time init
unwritten = refl
