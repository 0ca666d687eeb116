-- ===== src/Player/History.antt =====
-- Framework/game_serv/interface/impl/Player.h: what the getters give after any calls of the
-- setters.
use cppserver.Prelude.{ℕ, ◌==◌, ◌≡◌, refl, ap, Bool, List, [], ◌∷◌, Option, none, some, ◌>>=◌}
use cppserver.Prelude.Int.{ℤ}
use cppserver.Player.{
  UserBaseInfo, Player, set_table_id, set_chair_id, set_user_status, set_trustee, set_user_score,
  set_user_base_info, set_user_ready, set_user_sit, set_offline, get_user_id, get_user_score,
  is_getout, is_sit, is_ready, is_playing, lookon, is_breakline, is_offline,
}

pub data Call : Type 0 where
  table : ℕ → Call
  chair : ℕ → Call
  to_status : ℕ → Call
  trust : Bool → Call
  score : ℤ → Call
  info : UserBaseInfo → Call
  ready : Call
  sit : Call
  offline : Call

unfoldable pub call : Call → Player → Option Player
call (table id) p = some (set_table_id id p)
call (chair id) p = some (set_chair_id id p)
call (to_status s) p = some (set_user_status s p)
call (trust b) p = some (set_trustee b p)
call (score s) p = set_user_score s p
call (info i) p = set_user_base_info i p
call ready p = some (set_user_ready p)
call sit p = some (set_user_sit p)
call offline p = some (set_offline p)

unfoldable pub run : List Call → Player → Option Player
unfolding call
run [] p = some p
run (c ∷ cs) p = do q ← call c p; run cs q

-- What a call writes to a field, and the last of such values.
abbrev pub status_of : Call → Option ℕ
status_of (to_status s) = some s
status_of ready = some 3
status_of sit = some 2
status_of offline = some 5
status_of _ = none

abbrev pub score_of : Call → Option ℤ
score_of (score s) = some s
score_of (info i) = some i.user_score
score_of _ = none

abbrev pub user_of : Call → Option ℤ
user_of (info i) = some i.user_id
user_of _ = none

abbrev pub seat_of : Call → Option ℕ
seat_of (chair id) = some id
seat_of _ = none

abbrev pub table_of : Call → Option ℕ
table_of (table id) = some id
table_of _ = none

abbrev pub trust_of : Call → Option Bool
trust_of (trust b) = some b
trust_of _ = none

abbrev pub or_else {ℓ} : {A : Type ℓ} → Option A → A → A
or_else none old = old
or_else (some new) old = new

unfoldable pub last_written {ℓ} : {A : Type ℓ} → (Call → Option A) → List Call → A → A
last_written w [] old = old
last_written w (c ∷ cs) old = last_written w cs (or_else (w c) old)

-- What a client sees: the fields as the last calls wrote them.
pub record Shows (p : Player) (status chair table_id : ℕ) (trustee : Bool) (user amount : ℤ)
    : Type 0 where
  pub ready_is : is_ready p ≡ (3 == status)
  pub sit_is : is_sit p ≡ (2 == status)
  pub playing_is : is_playing p ≡ (4 == status)
  pub offline_is : is_offline p ≡ (5 == status)
  pub getout_is : is_getout p ≡ (0 == status)
  pub lookon_is : lookon p ≡ (6 == status)
  pub breakline_is : is_breakline p ≡ (7 == status)
  pub chair_is : p.chair_id ≡ chair
  pub table_is : p.table_id ≡ table_id
  pub trustee_is : p.trustee ≡ trustee
  pub user_is : get_user_id p ≡ some user
  pub score_is : get_user_score p ≡ some amount

set_user_score-some :
    (s : ℤ) (p : Player) (i : UserBaseInfo)
    → p.base_info ≡ some i
    → set_user_score s p ≡ some (record p { base_info = some (record i { user_score = s }) })
unfolding set_user_score
set_user_score-some s p i h =
    ap (λ b. b >>= λ j. some (record p { base_info = some (record j { user_score = s }) })) h

set_user_base_info-some :
    (new : UserBaseInfo) (p : Player) (i : UserBaseInfo)
    → p.base_info ≡ some i
    → set_user_base_info new p ≡ some (record p { base_info = some new })
unfolding set_user_base_info
set_user_base_info-some new p i h = ap (λ b. b >>= λ _. some (record p { base_info = some new })) h

-- On a player with base data any calls of the setters succeed, and then the tests of the status,
-- the chair, the table, the trustee flag, the user and the score are those that the last calls
-- wrote, or what there was before.
pub get-run_player :
    (cs : List Call) (p : Player) (i : UserBaseInfo)
    → p.base_info ≡ some i
    → (q : Player) × (run cs p ≡ some q)
      × Shows q
          (last_written status_of cs p.status)
          (last_written seat_of cs p.chair_id)
          (last_written table_of cs p.table_id)
          (last_written trust_of cs p.trustee)
          (last_written user_of cs i.user_id)
          (last_written score_of cs i.user_score)
unfolding run call last_written set_table_id set_chair_id set_user_status set_trustee set_user_ready
    set_user_sit set_offline get_user_id get_user_score is_getout is_sit is_ready is_playing lookon
    is_breakline is_offline
get-run_player [] p i h = (
  p,
  refl,
  record {
    ready_is = refl;
    sit_is = refl;
    playing_is = refl;
    offline_is = refl;
    getout_is = refl;
    lookon_is = refl;
    breakline_is = refl;
    chair_is = refl;
    table_is = refl;
    trustee_is = refl;
    user_is = ap (λ b. b >>= λ j. some j.user_id) h;
    score_is = ap (λ b. b >>= λ j. some j.user_score) h;
  },
)
get-run_player (table id ∷ cs) p i h = get-run_player cs (set_table_id id p) i h
get-run_player (chair id ∷ cs) p i h = get-run_player cs (set_chair_id id p) i h
get-run_player (to_status s ∷ cs) p i h = get-run_player cs (set_user_status s p) i h
get-run_player (trust b ∷ cs) p i h = get-run_player cs (set_trustee b p) i h
get-run_player (score s ∷ cs) p i h = rw (set_user_score-some s p i h) (get-run_player cs _ _ refl)
get-run_player (info new ∷ cs) p i h =
    rw (set_user_base_info-some new p i h) (get-run_player cs _ _ refl)
get-run_player (ready ∷ cs) p i h = get-run_player cs (set_user_ready p) i h
get-run_player (sit ∷ cs) p i h = get-run_player cs (set_user_sit p) i h
get-run_player (offline ∷ cs) p i h = get-run_player cs (set_offline p) i h
