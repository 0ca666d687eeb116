-- ===== src/Thirteen/Groups.antt =====
-- Games/Game_s13s/s13s.h, `groupdun_t`: what assigning and appending keep.
use cppserver.Prelude.{
  ℕ, ◌≤◌, ◌<◌, ◌≡◌, refl, ◌↔◌, ◌==◌, ltb, true, ◌||◌, List, [], ◌∷◌, Option, some, ◌>>=◌,
  if◌then◌else◌, length, arith, Option-cases, inl, inr,
}
use mathlib.Core.Option.{some-injective}
use cppserver.Prelude.Int.{pos}
use cppserver.Thirteen.{
  DunTy, dun_nil, dun_first, dun_second, dun_last, dun_max, HandTy, rank, is_dun, room, DunData,
  assign_dun, append_dun, GroupDun, dun_at, set_dun, reset_group, init_group, assign_group,
  need_c_group, append_group, get_c, init_dun,
}
use cppserver.Thirteen.Duns.{
  IsDun, assign_dun-IsDun, append_dun-IsDun, reset_dun-IsDun, need_c-eq, append_dun-room,
  append_dun-done,
}

pub record IsGroup (g : GroupDun) : Type 0 where
  pub first_dun : IsDun dun_first g.first
  pub second_dun : IsDun dun_second g.second
  pub last_dun : IsDun dun_last g.last

reset_group-IsGroup : (g : GroupDun) → IsGroup (reset_group g)
unfolding reset_group
reset_group-IsGroup g = record {
  first_dun = reset_dun-IsDun dun_first g.first;
  second_dun = reset_dun-IsDun dun_second g.second;
  last_dun = reset_dun-IsDun dun_last g.last;
}

init_group-IsGroup : IsGroup init_group
unfolding init_group
init_group-IsGroup = record {
  first_dun = reset_dun-IsDun dun_first init_dun;
  second_dun = reset_dun-IsDun dun_second init_dun;
  last_dun = reset_dun-IsDun dun_last init_dun;
}

dun_at-IsDun :
    (dt : DunTy) (g : GroupDun) (d : DunData) → IsGroup g → dun_at dt g ≡ some d → IsDun dt d
unfolding dun_at
dun_at-IsDun dun_nil g d v e = cc
dun_at-IsDun dun_first g d v e = rw⁻¹ (some-injective g.first d e) v.first_dun
dun_at-IsDun dun_second g d v e = rw⁻¹ (some-injective g.second d e) v.second_dun
dun_at-IsDun dun_last g d v e = rw⁻¹ (some-injective g.last d e) v.last_dun
dun_at-IsDun dun_max g d v e = cc

set_dun-IsGroup :
    (dt : DunTy) (d : DunData) (g : GroupDun) → IsDun dt d → IsGroup g → IsGroup (set_dun dt d g)
unfolding set_dun
set_dun-IsGroup dun_nil d g h v = v
set_dun-IsGroup dun_first d g h v = record {
  first_dun = h;
  second_dun = v.second_dun;
  last_dun = v.last_dun;
}
set_dun-IsGroup dun_second d g h v = record {
  first_dun = v.first_dun;
  second_dun = h;
  last_dun = v.last_dun;
}
set_dun-IsGroup dun_last d g h v = record {
  first_dun = v.first_dun;
  second_dun = v.second_dun;
  last_dun = h;
}
set_dun-IsGroup dun_max d g h v = v

set_start-IsGroup : (dt : DunTy) (g : GroupDun) → IsGroup g → IsGroup (record g { start = dt })
set_start-IsGroup dt g v = record {
  first_dun = v.first_dun;
  second_dun = v.second_dun;
  last_dun = v.last_dun;
}

assign_group-IsGroup :
    (dt : DunTy) (ty : HandTy) (src : List ℕ) (g g' : GroupDun)
    → IsGroup g
    → assign_group dt ty src g ≡ some g'
    → IsGroup g'
unfolding assign_group
assign_group-IsGroup dt ty src g g' v e = elim (Option-cases (dun_at dt g)) [
  | inl outside ↦ absurd (ground (arith, e, outside))
  | inr (d, inside) ↦ elim (Option-cases (assign_dun dt ty src d)) [
    | inl failed ↦ absurd (ground (arith, e, inside, failed))
    | inr (d1, done) ↦
        let first_one = if rank g.start == 0 || ltb (rank dt) (rank g.start) then dt else g.start in
        let made : g' ≡ record (set_dun dt d1 g) { start = first_one } =
          ground (arith, e, inside, done) in
        rw made (
          set_start-IsGroup first_one (set_dun dt d1 g) (
            set_dun-IsGroup dt d1 g
              (assign_dun-IsDun dt ty src d d1 (dun_at-IsDun dt g d v inside) done) v))
  ]
]

append_group-IsGroup :
    (dt : DunTy) (src : List ℕ) (g g' : GroupDun)
    → IsGroup g
    → append_group dt src g ≡ some g'
    → IsGroup g'
unfolding append_group
append_group-IsGroup dt src g g' v e = elim (Option-cases (dun_at dt g)) [
  | inl outside ↦ absurd (ground (arith, e, outside))
  | inr (d, inside) ↦ elim (Option-cases (append_dun src d)) [
    | inl failed ↦ absurd (ground (arith, e, inside, failed))
    | inr (d1, done) ↦
        let made : g' ≡ set_dun dt d1 g = ground (arith, e, inside, done) in
        rw made (
          set_dun-IsGroup dt d1 g
            (append_dun-IsDun dt src d d1 (dun_at-IsDun dt g d v inside) done).0 v)
  ]
]

-- The calls that a player's choice of cards makes.
pub data Call : Type 0 where
  resets : Call
  assigns : DunTy → HandTy → List ℕ → Call
  appends : DunTy → List ℕ → Call

unfoldable pub step : Call → GroupDun → Option GroupDun
step resets g = some (reset_group g)
step (assigns dt ty src) g = assign_group dt ty src g
step (appends dt src) g = append_group dt src g

unfoldable pub run : List Call → GroupDun → Option GroupDun
run [] g = some g
run (call ∷ calls) g = do g1 ← step call g; run calls g1

step-IsGroup : (call : Call) (g g' : GroupDun) → IsGroup g → step call g ≡ some g' → IsGroup g'
unfolding step
step-IsGroup resets g g' v e = rw⁻¹ (some-injective (reset_group g) g' e) (reset_group-IsGroup g)
step-IsGroup (assigns dt ty src) g g' v e = assign_group-IsGroup dt ty src g g' v e
step-IsGroup (appends dt src) g g' v e = append_group-IsGroup dt src g g' v e

run-IsGroup : (calls : List Call) (g g' : GroupDun) → IsGroup g → run calls g ≡ some g' → IsGroup g'
unfolding run
run-IsGroup [] g g' v e = rw⁻¹ (some-injective g g' e) v
run-IsGroup (call ∷ calls) g g' v e = elim (Option-cases (step call g)) [
  | inl failed ↦ absurd (ground (arith, e, failed))
  | inr (g1, done) ↦
      run-IsGroup calls g1 g' (step-IsGroup call g g1 v done) (ground (arith, e, done))
]

get_c-thirteen :
    (g : GroupDun)
    → IsGroup g
    → (get_c g ≤ 13)
      × ((get_c g ≡ 13) ↔ (
          (need_c_group dun_first g ≡ some (pos 0))
          × (need_c_group dun_second g ≡ some (pos 0))
          × (need_c_group dun_last g ≡ some (pos 0))))
unfolding get_c need_c_group dun_at room is_dun
get_c-thirteen g v = (
  omega (arith, v.first_dun.bound, v.second_dun.bound, v.last_dun.bound),
  ground (
    arith,
    need_c-eq dun_first g.first refl v.first_dun,
    need_c-eq dun_second g.second refl v.second_dun,
    need_c-eq dun_last g.last refl v.last_dun,
    v.first_dun.bound,
    v.second_dun.bound,
    v.last_dun.bound,
  ),
)

-- From a new group on, whatever calls of Reset, assign and append pass their asserts: each dun
-- keeps its place, its five card slots and no more cards than it has room for, the group has at
-- most 13 cards, and it has 13 exactly if no dun lacks one.
pub get_c-run :
    (calls : List Call) (g : GroupDun)
    → run calls init_group ≡ some g
    → IsGroup g
      × (get_c g ≤ 13)
      × ((get_c g ≡ 13) ↔ (
          (need_c_group dun_first g ≡ some (pos 0))
          × (need_c_group dun_second g ≡ some (pos 0))
          × (need_c_group dun_last g ≡ some (pos 0))))
get_c-run calls g e =
    let v = run-IsGroup calls init_group g init_group-IsGroup e in
    (v, (get_c-thirteen g v).0, (get_c-thirteen g v).1)

dun_at-set_dun :
    (dt : DunTy) (d : DunData) (g : GroupDun)
    → is_dun dt ≡ true
    → dun_at dt (set_dun dt d g) ≡ some d
unfolding dun_at set_dun is_dun
dun_at-set_dun dun_nil d g h = cc
dun_at-set_dun dun_first d g h = refl
dun_at-set_dun dun_second d g h = refl
dun_at-set_dun dun_last d g h = refl
dun_at-set_dun dun_max d g h = cc

-- In a group that such calls made, append of cards to one of the three duns succeeds, and then
-- the dun lacks none, exactly if there is a card and their number is what needC says the dun
-- lacks.
pub append_group-fills :
    (calls : List Call) (dt : DunTy) (src : List ℕ) (g : GroupDun)
    → run calls init_group ≡ some g
    → is_dun dt ≡ true
    → ((g' : GroupDun) × (append_group dt src g ≡ some g') × (need_c_group dt g' ≡ some (pos 0)))
      ↔ ((0 < length src) × (need_c_group dt g ≡ some (pos (length src))))
unfolding append_group need_c_group
append_group-fills calls dt src g e h = (fills, filled)
  where
    v : IsGroup g
    v = run-IsGroup calls init_group g init_group-IsGroup e

    fills :
        (g' : GroupDun) × (append_group dt src g ≡ some g') × (need_c_group dt g' ≡ some (pos 0))
        → (0 < length src) × (need_c_group dt g ≡ some (pos (length src)))
    fills (g', done, _) = elim (Option-cases (dun_at dt g)) [
      | inl outside ↦ absurd (ground (arith, done, outside))
      | inr (d, inside) ↦ elim (Option-cases (append_dun src d)) [
        | inl failed ↦ absurd (ground (arith, done, inside, failed))
        | inr (d1, appended) ↦
            rw inside (append_dun-room dt src d d1 appended h (dun_at-IsDun dt g d v inside))
      ]
    ]

    filled :
        (0 < length src) × (need_c_group dt g ≡ some (pos (length src)))
        → (g' : GroupDun) × (append_group dt src g ≡ some g') × (need_c_group dt g' ≡ some (pos 0))
    filled (some_cards, lacks) = elim (Option-cases (dun_at dt g)) [
      | inl outside ↦ absurd (ground (arith, lacks, outside))
      | inr (d, inside) ↦
          let (d', done, zero_left) =
            append_dun-done dt src d h (dun_at-IsDun dt g d v inside) some_cards
              (ground (arith, lacks, inside)) in
          (set_dun dt d' g, rw (inside, done) refl, rw (dun_at-set_dun dt d' g h) zero_left)
    ]
