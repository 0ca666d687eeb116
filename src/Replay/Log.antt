-- ===== src/Replay/Log.antt =====
-- public/gameStruct.h: what `tagGameReplay` promises. Its abstract view is three logs; recording
-- appends to one of them, and clearing empties all three, whatever the slots hold.
use cppserver.Prelude.{◌≡◌, refl, Bool, true, List, [], ◌∷◌, ◌++◌, String, ap, ◌∙◌}
use cppserver.Prelude.Int.{ℤ}
use cppserver.Replay.Slots.{
  marked, IsPacked, marked-fill, fill-IsPacked, marked-map-reset, map-reset-IsPacked,
}
use cppserver.Replay.{
  GameReplay, ReplayStep, ReplayResult, ReplayPlayer, clear, add_result, add_player, add_step,
  unset_step, unset_player, unset_result,
}

-- A call of the record's interface.
pub data Call : Type 0 where
  clears : Call
  results : ℤ → ℤ → ℤ → ℤ → String → Bool → Call
  players : ℤ → String → ℤ → ℤ → Call
  steps : ℤ → String → ℤ → ℤ → ℤ → ℤ → Call

unfoldable pub step : Call → GameReplay → GameReplay
step clears r = clear r
step (results chair place bet win cardtype banker) r =
    add_result chair place bet win cardtype banker r
step (players user account score chair) r = add_player user account score chair r
step (steps time bet round ty chair place) r = add_step time bet round ty chair place r

unfoldable pub run : List Call → GameReplay → GameReplay
run [] r = r
run (c ∷ cs) r = run cs (step c r)

pub record Logs : Type 0 where
  pub players : List ReplayPlayer
  pub steps : List ReplayStep
  pub results : List ReplayResult

-- What a reader of the record sees: the entries whose flag is set.
unfoldable pub logs : GameReplay → Logs
logs r = record {
  players = marked (λ p. p.flag) r.players;
  steps = marked (λ s. s.flag) r.steps;
  results = marked (λ e. e.flag) r.results;
}

-- The abstract step: append to a log, or empty them.
unfoldable pub log_step : Call → Logs → Logs
log_step clears l = record { players = []; steps = []; results = [] }
log_step (results chair place bet win cardtype banker) l = record l {
  results =
      l.results
      ++ record {
        chair_id = chair;
        place = place;
        bet = bet;
        win = win;
        cardtype = cardtype;
        isbanker = banker;
        flag = true;
      }
        ∷ [];
}
log_step (players user account score chair) l = record l {
  players =
      l.players
      ++ record { userid = user; accout = account; score = score; chairid = chair; flag = true }
        ∷ [];
}
log_step (steps time bet round ty chair place) l = record l {
  steps =
      l.steps
      ++ record {
        time = time;
        bet = bet;
        round = round;
        ty = ty;
        chair_id = chair;
        place = place;
        flag = true;
      }
        ∷ [];
}

unfoldable pub log_run : List Call → Logs → Logs
log_run [] l = l
log_run (c ∷ cs) l = log_run cs (log_step c l)

-- In each vector the recorded entries stand before the free slots.
pub record IsValid (r : GameReplay) : Type 0 where
  pub players_packed : IsPacked (λ (p : ReplayPlayer). p.flag) r.players
  pub steps_packed : IsPacked (λ (s : ReplayStep). s.flag) r.steps
  pub results_packed : IsPacked (λ (e : ReplayResult). e.flag) r.results

step-IsValid : (c : Call) {r : GameReplay} → IsValid r → IsValid (step c r)
unfolding step clear add_result add_player add_step
step-IsValid clears {r} v = record {
  players_packed = map-reset-IsPacked _ _ (λ _. refl) r.players;
  steps_packed = map-reset-IsPacked _ _ (λ _. refl) r.steps;
  results_packed = map-reset-IsPacked _ _ (λ _. refl) r.results;
}
step-IsValid (results chair place bet win cardtype banker) {r} v = record {
  players_packed = v.players_packed;
  steps_packed = v.steps_packed;
  results_packed = fill-IsPacked _ _ _ (λ _. refl) refl r.results v.results_packed;
}
step-IsValid (players user account score chair) {r} v = record {
  players_packed = fill-IsPacked _ _ _ (λ _. refl) refl r.players v.players_packed;
  steps_packed = v.steps_packed;
  results_packed = v.results_packed;
}
step-IsValid (steps time bet round ty chair place) {r} v = record {
  players_packed = v.players_packed;
  steps_packed = fill-IsPacked _ _ _ (λ _. refl) refl r.steps v.steps_packed;
  results_packed = v.results_packed;
}

-- Each call does to the logs what its abstract step does.
logs-step : (c : Call) (r : GameReplay) → IsValid r → logs (step c r) ≡ log_step c (logs r)
unfolding logs step log_step clear add_result add_player add_step
logs-step clears r v = λ i. record {
  players = marked-map-reset (λ (p : ReplayPlayer). p.flag) unset_player (λ _. refl) r.players i;
  steps = marked-map-reset (λ (s : ReplayStep). s.flag) unset_step (λ _. refl) r.steps i;
  results = marked-map-reset (λ (e : ReplayResult). e.flag) unset_result (λ _. refl) r.results i;
}
logs-step (results chair place bet win cardtype banker) r v =
    ap (λ (e : List ReplayResult). record (logs r) { results = e })
      (marked-fill _ _ _ (λ _. refl) refl r.results v.results_packed)
logs-step (players user account score chair) r v =
    ap (λ (e : List ReplayPlayer). record (logs r) { players = e })
      (marked-fill _ _ _ (λ _. refl) refl r.players v.players_packed)
logs-step (steps time bet round ty chair place) r v =
    ap (λ (e : List ReplayStep). record (logs r) { steps = e })
      (marked-fill _ _ _ (λ _. refl) refl r.steps v.steps_packed)

-- Any calls keep a packed record packed: in each vector the recorded entries stand before the
-- free slots.
pub run-IsValid : (cs : List Call) {r : GameReplay} → IsValid r → IsValid (run cs r)
unfolding run
run-IsValid [] v = v
run-IsValid (c ∷ cs) v = run-IsValid cs (step-IsValid c v)

-- From a packed record on, any calls of addPlayer, addStep, addResult and clear do to the
-- recorded entries what appending to three logs, and emptying all three, does.
pub logs-run : (cs : List Call) (r : GameReplay) → IsValid r → logs (run cs r) ≡ log_run cs (logs r)
unfolding run log_run
logs-run [] r v = refl
logs-run (c ∷ cs) r v =
    logs-run cs (step c r) (step-IsValid c v) ∙ ap (log_run cs) (logs-step c r v)
