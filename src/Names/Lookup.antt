-- ===== src/Names/Lookup.antt =====
-- The functions of thirdpart/Logger/src/const.h: no row of the repository's tables hides another,
-- and which values have a message.
use Prim.Native.String.{◌++◌ as str_append}
use cppserver.Prelude.{
  ℕ, zero, suc, ◌≡◌, refl, Bool, true, false, not, ◌&&◌, List, [], ◌∷◌, some, if◌then◌else◌,
  get_elem?, arith, subst, Bool-cases, inl, inr,
}
use mathlib.Core.Option.{some-injective}
use cppserver.Prelude.Int.{ℤ, pos}
use cppserver.Prelude.Maps.{beq_ℤ, beq_ℤ_iff, is_empty, string_key}
use cppserver.Names.{Row, after, rows_from, return_name, return_desc, errmsg, return_msg}
use cppserver.Names.Game.{
  permission_map, gamemode_map, gametype_map, gamestatus_map, userstatus_map, get_type_name,
  get_type_desc, get_type_msg, get_status_name, get_status_desc, get_status_msg, get_mode_name,
  get_mode_desc, get_mode_msg, get_permission_name, get_permission_desc, get_permission_msg,
}
use cppserver.Names.Errors.{errorenterroom_map, errorcode_map}
use cppserver.Names.Log.{timezone_map, level_map, mode_map, style_map}

-- The tables of the repository.
unfoldable pub tables : List (List Row)
tables =
    rows_from "k" (pos 0) permission_map
    ∷ rows_from "k" (pos 0) gamemode_map
    ∷ rows_from "" (pos 0) gametype_map
    ∷ rows_from "" (pos 0) gamestatus_map
    ∷ rows_from "" (pos 0) userstatus_map
    ∷ rows_from "" (pos 0) errorenterroom_map
    ∷ rows_from "k" (pos 0) errorcode_map
    ∷ rows_from "" (pos 0) timezone_map
    ∷ rows_from "" (pos 0) level_map
    ∷ rows_from "" (pos 0) mode_map
    ∷ rows_from "" (pos 0) style_map
    ∷ []

-- No row has the value, and no two rows have one value.
abbrev lacks_id : ℤ → List Row → Bool
lacks_id id [] = true
lacks_id id (r ∷ rows) = not (beq_ℤ id r.id) && lacks_id id rows

abbrev pub has_distinct_ids : List Row → Bool
has_distinct_ids [] = true
has_distinct_ids (r ∷ rows) = lacks_id r.id rows && has_distinct_ids rows

-- The three functions give what the row holds.
abbrev pub IsFound : Row → List Row → Type 0
IsFound r rows =
    (return_name r.id rows ≡ r.name)
    × (return_desc r.id rows ≡ r.desc)
    × (return_msg r.id rows ≡ errmsg r.name r.desc)

head-IsFound : (r : Row) (rows : List Row) → IsFound r (r ∷ rows)
unfolding return_name return_desc return_msg
head-IsFound r rows =
    let same : beq_ℤ r.id r.id ≡ true = (beq_ℤ_iff r.id r.id).1 refl in rw same (refl, refl, refl)

later-IsFound :
    (a r : Row) (rows : List Row) → beq_ℤ a.id r.id ≡ false → IsFound r rows → IsFound r (a ∷ rows)
unfolding return_name return_desc return_msg
later-IsFound a r rows other found = rw other found

lacks_id-row :
    (id : ℤ) (rows : List Row) (k : ℕ) {r : Row}
    → lacks_id id rows ≡ true
    → get_elem? rows k ≡ some r
    → beq_ℤ id r.id ≡ false
lacks_id-row id [] k h e = cc
lacks_id-row id (a ∷ rows) zero {r} h e =
    subst (λ (b : Row). beq_ℤ id b.id ≡ false) (some-injective a r e) (ground (arith, h))
lacks_id-row id (a ∷ rows) (suc k) h e = lacks_id-row id rows k (ground (arith, h)) e

-- Where the values differ, each row is found by its own.
pub return_name-row :
    (rows : List Row) (k : ℕ) {r : Row}
    → has_distinct_ids rows ≡ true
    → get_elem? rows k ≡ some r
    → IsFound r rows
return_name-row [] k h e = cc
return_name-row (a ∷ rows) zero {r} h e =
    subst (λ (b : Row). IsFound b (a ∷ rows)) (some-injective a r e) (head-IsFound a rows)
return_name-row (a ∷ rows) (suc k) {r} h e =
    later-IsFound a r rows (lacks_id-row a.id rows k (ground (arith, h)) e)
      (return_name-row rows k (ground (arith, h)) e)

abbrev all_distinct : List (List Row) → Bool
all_distinct [] = true
all_distinct (rows ∷ rest) = has_distinct_ids rows && all_distinct rest

all_distinct-table :
    (ts : List (List Row)) (t : ℕ) {rows : List Row}
    → all_distinct ts ≡ true
    → get_elem? ts t ≡ some rows
    → has_distinct_ids rows ≡ true
all_distinct-table [] t h e = cc
all_distinct-table (a ∷ ts) zero {rows} h e =
    subst (λ (b : List Row). has_distinct_ids b ≡ true) (some-injective a rows e)
      (ground (arith, h))
all_distinct-table (a ∷ ts) (suc t) h e = all_distinct-table ts t (ground (arith, h)) e

tables_distinct : all_distinct tables ≡ true
unfolding tables rows_from after permission_map gamemode_map gametype_map gamestatus_map
    userstatus_map errorenterroom_map errorcode_map timezone_map level_map mode_map style_map
tables_distinct = refl

-- In each of the eleven tables of gameConst.h, errorCode.h and Macro.h no entry hides another:
-- each row is found by its value, with its name, its description and the message of the two. The
-- source itself looks up nine of them, and makes messages of five.
pub tables-IsFound :
    (t k : ℕ) {rows : List Row} {r : Row}
    → get_elem? tables t ≡ some rows
    → get_elem? rows k ≡ some r
    → IsFound r rows
tables-IsFound t k {rows} e h =
    return_name-row rows k (all_distinct-table tables t tables_distinct e) h

abbrev all_named : List Row → Bool
all_named [] = true
all_named (r ∷ rows) = not (is_empty r.name) && all_named rows

return_msg-names :
    (id : ℤ) (rows : List Row)
    → all_named rows ≡ true
    → return_msg id rows ≡ (
        if is_empty (return_name id rows)
        then ""
        else str_append "["
            (str_append (return_name id rows) (str_append "]" (return_desc id rows))))
unfolding return_name return_desc return_msg errmsg
return_msg-names id [] h = refl
return_msg-names id (r ∷ rows) h = elim (Bool-cases (beq_ℤ r.id id)) [
  | inl here ↦ let named : is_empty r.name ≡ false = ground (arith, h) in rw (here, named) refl
  | inr other ↦ rw other (return_msg-names id rows (ground (arith, h)))
]

-- The messages of the game types, the game states, the game modes and the permissions are, for
-- every value, the name in brackets and the description, and empty exactly where the value has no
-- name.
pub get_msg-names :
    (v : ℤ)
    → (get_type_msg v ≡ (
        if is_empty (get_type_name v)
        then ""
        else str_append "[" (str_append (get_type_name v) (str_append "]" (get_type_desc v)))))
      × (get_status_msg v ≡ (
          if is_empty (get_status_name v)
          then ""
          else str_append "["
              (str_append (get_status_name v) (str_append "]" (get_status_desc v)))))
      × (get_mode_msg v ≡ (
          if is_empty (get_mode_name v)
          then ""
          else str_append "[" (str_append (get_mode_name v) (str_append "]" (get_mode_desc v)))))
      × (get_permission_msg v ≡ (
          if is_empty (get_permission_name v)
          then ""
          else str_append "["
              (str_append (get_permission_name v) (str_append "]" (get_permission_desc v)))))
unfolding get_type_msg get_type_name get_type_desc get_status_msg get_status_name get_status_desc
    get_mode_msg get_mode_name get_mode_desc get_permission_msg get_permission_name
    get_permission_desc gametype_map gamestatus_map gamemode_map permission_map rows_from
get_msg-names v = (
  return_msg-names v (rows_from "" (pos 0) gametype_map) refl,
  return_msg-names v (rows_from "" (pos 0) gamestatus_map) refl,
  return_msg-names v (rows_from "k" (pos 0) gamemode_map) refl,
  return_msg-names v (rows_from "k" (pos 0) permission_map) refl,
)
