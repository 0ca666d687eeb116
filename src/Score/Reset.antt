-- ===== src/Score/Reset.antt =====
-- public/gameStruct.h: what `clear` restores of a score line.
use cppserver.Prelude.{◌≡◌, refl, ◌↔◌, true, arith, ap}
use cppserver.Score.{
  ScoreInfo, SpecialScoreInfo, init_score, clear_score, init_special, clear_special,
}

-- Two score lines of one start time are the same once they are cleared, and the same as a new one.
pub clear_score-init : (s : ScoreInfo) → clear_score s ≡ init_score s.start_time
unfolding clear_score init_score
clear_score-init s = refl

-- clear makes of a special score line a new one of its start time and android flag exactly if its
-- two write flags are set, since it does not reset them.
pub clear_special-init :
    (s : SpecialScoreInfo)
    → (clear_special s ≡ init_special s.start_time s.is_android)
      ↔ ((s.write_score ≡ true) × (s.write_record ≡ true))
unfolding clear_special init_special
clear_special-init s = (
  (λ e. (
    ap (λ (t : SpecialScoreInfo). t.write_score) e,
    ap (λ (t : SpecialScoreInfo). t.write_record) e,
  )),
  λ h. ground arith,
)
