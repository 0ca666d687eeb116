-- ===== src/Table/Seats.antt =====
-- Games/Game_texas/TableFrameSink.h, `GetUserId`: the user on a chair; and the names of the
-- players' states.
use cppserver.Prelude.{
  ℕ, zero, suc, ◌≤◌, ◌≡◌, ◌≢◌, ◌⊎◌, inl, inr, ◌==◌, ==_iff, refl, List, [], ◌∷◌, some, none, false,
  sym, ap, ◌∙◌, if◌then◌else◌, All, arith, Bool-cases,
}
use cppserver.Prelude.Int.{ℤ, pos}
use cppserver.Prelude.Maps.{ℤ_key, beq_ℤ, beq_ℤ_iff, beq_refl, lookup, Distinct, is_empty}
use cppserver.Names.{after, rows_from, return_name}
use cppserver.Names.Game.{userstatus_map}
use cppserver.Table.{string_player_stat, UserInfo, get_user_id}

abbrev pub IsOn : ℕ → ℤ × UserInfo → Type 0
IsOn chair_id e = e.1.chair_id ≡ chair_id

-- The user is on the chair, or nobody is and the answer is 0.
abbrev pub Answers : List (ℤ × UserInfo) → ℕ → ℤ → Type 0
Answers infos chair_id id =
    ((u : UserInfo) × (lookup id infos ≡ some u) × (u.chair_id ≡ chair_id))
    ⊎ ((id ≡ pos 0) × All (λ e. e.1.chair_id ≢ chair_id) infos)

abbrev pub OneEach : List (ℤ × UserInfo) → Type 0
OneEach [] = Unit
OneEach ((id, u) ∷ infos) = All (λ e. e.1.chair_id ≢ u.chair_id) infos × OneEach infos

some-injective : {u v : UserInfo} → some u ≡ some v → u ≡ v
some-injective h = cc

lookup-All :
    (infos : List (ℤ × UserInfo)) (id : ℤ) (c : ℕ) {u : UserInfo}
    → All (λ e. e.1.chair_id ≢ c) infos
    → lookup id infos ≡ some u
    → u.chair_id ≢ c
unfolding lookup
lookup-All [] id c a h = cc
lookup-All ((k, v) ∷ infos) id c {u} a h = elim (Bool-cases (beq_ℤ k id)) [
  | inl e ↦
      let same : v ≡ u = some-injective (rw e at h) in
      λ q. a.0 (ap (λ (w : UserInfo). w.chair_id) same ∙ q)
  | inr n ↦ lookup-All infos id c a.1 (rw n at h)
]

other : (a b : ℕ) → a ≢ b → (a == b) ≡ false
other a b n = ground arith

-- Where no two users are on one chair, GetUserId gives for the chair of a user in the table that
-- user.
pub get_user_id-lookup :
    (infos : List (ℤ × UserInfo)) (id : ℤ) {u : UserInfo}
    → OneEach infos
    → lookup id infos ≡ some u
    → get_user_id infos u.chair_id ≡ id
unfolding lookup get_user_id
get_user_id-lookup [] id o h = cc
get_user_id-lookup ((k, v) ∷ infos) id {u} o h = elim (Bool-cases (beq_ℤ k id)) [
  | inl e ↦
      let same : v ≡ u = some-injective (rw e at h) in
      rw ((==_iff v.chair_id u.chair_id).1 (ap (λ (w : UserInfo). w.chair_id) same))
        ((beq_ℤ_iff k id).0 e)
  | inr n ↦
      let there : lookup id infos ≡ some u = rw n at h in
      rw (other v.chair_id u.chair_id (λ q. lookup-All infos id v.chair_id o.0 there (sym q)))
        (get_user_id-lookup infos id o.1 there)
]

ne_of : (a b : ℕ) → (a == b) ≡ false → a ≢ b
ne_of a b h = ground arith

lookup_head :
    (k : ℤ) (v : UserInfo) (infos : List (ℤ × UserInfo)) → lookup k ((k, v) ∷ infos) ≡ some v
unfolding lookup
lookup_head k v infos = rw (beq_refl k)

none-ne-some : {u : UserInfo} → none ≢ some u
none-ne-some h = cc

lookup_tail :
    (k id : ℤ) (v : UserInfo) {u : UserInfo} (infos : List (ℤ × UserInfo))
    → lookup k infos ≡ none
    → lookup id infos ≡ some u
    → lookup id ((k, v) ∷ infos) ≡ some u
unfolding lookup
lookup_tail k id v {u} infos absent h = elim (Bool-cases (beq_ℤ k id)) [
  | inl e ↦ absurd (none-ne-some {u = u} (sym absent ∙ rw ((beq_ℤ_iff k id).0 e) h))
  | inr n ↦ rw n h
]

Answers-cons :
    (k : ℤ) (v : UserInfo) (infos : List (ℤ × UserInfo)) (c : ℕ) (id : ℤ)
    → lookup k infos ≡ none
    → v.chair_id ≢ c
    → Answers infos c id
    → Answers ((k, v) ∷ infos) c id
Answers-cons k v infos c id absent ne (inl (u, h, on)) =
    inl (u, lookup_tail k id v infos absent h, on)
Answers-cons k v infos c id absent ne (inr (z, nobody)) = inr (z, (ne, nobody))

-- In a table that has each user once, GetUserId gives a user who is on the chair, or it gives 0
-- and nobody is on it.
pub get_user_id-Answers :
    (infos : List (ℤ × UserInfo)) (chair_id : ℕ)
    → Distinct infos
    → Answers infos chair_id (get_user_id infos chair_id)
unfolding get_user_id
get_user_id-Answers [] c d = inr (refl, tt)
get_user_id-Answers ((k, v) ∷ infos) c d = elim (Bool-cases (v.chair_id == c)) [
  | inl e ↦ rw e (inl (v, lookup_head k v infos, (==_iff v.chair_id c).0 e))
  | inr n ↦
      rw n (Answers-cons k v infos c _ d.0 (ne_of v.chair_id c n) (get_user_id-Answers infos c d.1))
]

stat_above : (n : ℕ) → 9 ≤ n → string_player_stat n ≡ "nil"
unfolding string_player_stat
stat_above n h = ground arith

name_above : (n : ℕ) → 9 ≤ n → return_name (pos n) (rows_from "" (pos 0) userstatus_map) ≡ ""
unfolding return_name rows_from after userstatus_map
name_above n h = ground arith

not_seven : (n : ℕ) → 9 ≤ n → (n == 7) ≡ false
not_seven n h = ground arith

pub string_player_stat-eq :
    (status : ℕ)
    → string_player_stat status ≡ (
        if status == 7
        then "nil"
        else if is_empty (return_name (pos status) (rows_from "" (pos 0) userstatus_map))
        then "nil"
        else return_name (pos status) (rows_from "" (pos 0) userstatus_map))
unfolding string_player_stat return_name rows_from after userstatus_map
string_player_stat-eq zero = refl
string_player_stat-eq (suc zero) = refl
string_player_stat-eq (suc (suc zero)) = refl
string_player_stat-eq (suc (suc (suc zero))) = refl
string_player_stat-eq (suc (suc (suc (suc zero)))) = refl
string_player_stat-eq (suc (suc (suc (suc (suc zero))))) = refl
string_player_stat-eq (suc (suc (suc (suc (suc (suc zero)))))) = refl
string_player_stat-eq (suc (suc (suc (suc (suc (suc (suc zero))))))) = refl
string_player_stat-eq (suc (suc (suc (suc (suc (suc (suc (suc zero)))))))) = refl
string_player_stat-eq (suc (suc (suc (suc (suc (suc (suc (suc (suc n))))))))) = rw (
  stat_above (suc (suc (suc (suc (suc (suc (suc (suc (suc n))))))))) (omega arith),
  not_seven (suc (suc (suc (suc (suc (suc (suc (suc (suc n))))))))) (omega arith),
  name_above (suc (suc (suc (suc (suc (suc (suc (suc (suc n))))))))) (omega arith),
)
