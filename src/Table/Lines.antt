-- ===== src/Table/Lines.antt =====
-- Games/Game_texas/TableFrameSink.h and Game_suoha, the macro `SetScoreInfoBase`: whose score line
-- it is. `p` is a pointer to a `userinfo_t`, or null; `seat` is the table's `GetChairPlayer`.
use cppserver.Prelude.{
  ℕ, ◌≡◌, refl, ◌≢◌, ◌==◌, Bool, true, false, not, ◌||◌, List, Option, none, some, ◌>>=◌, ◌>>◌,
  assert, arith,
}
use cppserver.Prelude.Int.{ℤ}
use cppserver.Prelude.Maps.{ℤ_key, lookup}
use cppserver.Player.{Player}
use cppserver.Player
use cppserver.Score.{SpecialScoreInfo}
use cppserver.Table.{UserInfo, get_user_id}
use cppserver.Table.Seats.{OneEach, get_user_id-lookup}

-- `debug` is whether asserts are compiled in; without them a missing player is a null pointer.
unfoldable pub set_score_info_base :
    Bool → (ℕ → Option Player) → SpecialScoreInfo → ℕ → Option UserInfo → Option SpecialScoreInfo
set_score_info_base debug seat score_info x none = do
  user_item ← seat x
  id ← Player.get_user_id user_item
  some (record score_info { chair_id = x; user_id = id })
set_score_info_base debug seat score_info x (some u) = do
  assert (not debug || x == u.chair_id)
  some (record score_info { chair_id = x; user_id = u.user_id })

on_chair : (debug : Bool) (chair : ℕ) → (not debug || chair == chair) ≡ true
on_chair true chair = ground arith
on_chair false chair = refl

elsewhere : (chair other : ℕ) → other ≢ chair → (other == chair) ≡ false
elsewhere chair other ne = ground arith

-- The two ways agree: if no two users of the table are on one chair, and a user's entry stands
-- under its own id, SetScoreInfoBase with this entry writes the chair and the id that GetUserId
-- gives for the chair, and so it does with a null pointer if the table has a player with this id
-- on the chair; the rest of the line is kept. With the entry and another chair a debug build
-- aborts.
pub set_score_info_base-user_id :
    (debug : Bool) (seat : ℕ → Option Player) (score_info : SpecialScoreInfo)
    (infos : List (ℤ × UserInfo)) (u : UserInfo) (player : Player) (other : ℕ)
    → OneEach infos
    → lookup u.user_id infos ≡ some u
    → seat u.chair_id ≡ some player
    → Player.get_user_id player ≡ some u.user_id
    → other ≢ u.chair_id
    → let line = record score_info {
      chair_id = u.chair_id;
      user_id = get_user_id infos u.chair_id;
    } in
      (set_score_info_base debug seat score_info u.chair_id (some u) ≡ some line)
      × (set_score_info_base debug seat score_info u.chair_id none ≡ some line)
      × (set_score_info_base true seat score_info other (some u) ≡ none)
unfolding set_score_info_base
set_score_info_base-user_id debug seat score_info infos u player other one kept sits known ne =
    let found = get_user_id-lookup infos u.user_id one kept in
    (
      rw (found, on_chair debug u.chair_id) refl,
      rw (found, sits, known) refl,
      rw (elsewhere u.chair_id other ne) refl,
    )
