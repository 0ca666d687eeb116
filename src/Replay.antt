-- ===== src/Replay.antt =====
-- public/gameStruct.h: the record of one round of a game, `tagGameReplay`, with its players,
-- steps and results. A recorded entry is a slot whose `flag` is set; `clear` keeps the slots for
-- reuse. The field `pos` of the source is `place` here. The fixed-width integers are stored and
-- never computed with, so they are plain integers.
pub mod Slots
pub mod Log
use cppserver.Prelude.{Bool, true, false, List, map, String}
use cppserver.Prelude.Int.{ℤ}
use Slots.{fill}

pub record ReplayStep : Type 0 where
  pub time : ℤ
  pub bet : String
  pub round : ℤ
  pub ty : ℤ
  pub chair_id : ℤ
  pub place : ℤ
  pub flag : Bool

pub record ReplayResult : Type 0 where
  pub chair_id : ℤ
  pub place : ℤ
  pub bet : ℤ
  pub win : ℤ
  pub cardtype : String
  pub isbanker : Bool
  pub flag : Bool

pub record ReplayPlayer : Type 0 where
  pub userid : ℤ
  pub accout : String
  pub score : ℤ
  pub chairid : ℤ
  pub flag : Bool

pub record GameReplay : Type 0 where
  pub gameid : ℤ
  pub gameinfoid : String
  pub roomname : String
  pub cellscore : ℤ
  pub save_as_stream : Bool
  pub details_data : String
  pub players : List ReplayPlayer
  pub steps : List ReplayStep
  pub results : List ReplayResult

-- `it->flag = false`, for an entry of each vector.
abbrev pub unset_step : ReplayStep → ReplayStep
unset_step s = record s { flag = false }

abbrev pub unset_player : ReplayPlayer → ReplayPlayer
unset_player p = record p { flag = false }

abbrev pub unset_result : ReplayResult → ReplayResult
unset_result e = record e { flag = false }

unfoldable pub clear : GameReplay → GameReplay
clear r = record r {
  steps = map unset_step r.steps;
  players = map unset_player r.players;
  results = map unset_result r.results;
}

unfoldable pub add_result : ℤ → ℤ → ℤ → ℤ → String → Bool → GameReplay → GameReplay
add_result chair_id place bet win cardtype is_banker r = record r {
  results =
      fill (λ (it : ReplayResult). it.flag)
        (λ it. record it {
          chair_id = chair_id;
          place = place;
          bet = bet;
          win = win;
          isbanker = is_banker;
          cardtype = cardtype;
          flag = true;
        })
        (record {
          chair_id = chair_id;
          place = place;
          bet = bet;
          win = win;
          cardtype = cardtype;
          isbanker = is_banker;
          flag = true;
        })
        r.results;
}

unfoldable pub add_player : ℤ → String → ℤ → ℤ → GameReplay → GameReplay
add_player userid account score chairid r = record r {
  players =
      fill (λ (it : ReplayPlayer). it.flag)
        (λ it. record it {
          accout = account;
          userid = userid;
          score = score;
          chairid = chairid;
          flag = true;
        })
        (record {
          accout = account;
          userid = userid;
          score = score;
          chairid = chairid;
          flag = true;
        })
        r.players;
}

unfoldable pub add_step : ℤ → String → ℤ → ℤ → ℤ → ℤ → GameReplay → GameReplay
add_step time bet round ty chair_id place r = record r {
  steps =
      fill (λ (it : ReplayStep). it.flag)
        (λ it. record it {
          time = time;
          bet = bet;
          round = round;
          ty = ty;
          chair_id = chair_id;
          place = place;
          flag = true;
        })
        (record {
          time = time;
          bet = bet;
          round = round;
          ty = ty;
          chair_id = chair_id;
          place = place;
          flag = true;
        })
        r.steps;
}
