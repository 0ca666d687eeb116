-- ===== src/Thirteen/Duns.antt =====
-- Games/Game_s13s/s13s.h, `dundata_t`: what assigning and appending keep.
use cppserver.Prelude.{
  ℕ, ◌+◌, ◌-◌, ◌%◌, ◌≤◌, ◌<◌, ◌≡◌, refl, true, List, ◌++◌, some, length, take, drop, length-append,
  length-take, length-drop, arith, ◌∙◌, ap,
}
use native.Mathlib.Nat.{mod-eq_of_lt}
use cppserver.Prelude.Int.{pos}
use cppserver.Thirteen.{
  DunTy, dun_nil, dun_first, dun_second, dun_last, dun_max, HandTy, is_dun, room, DunData, write,
  assign_dun, reset_dun, need_c, append_dun,
}

-- A dun at its place, with no more cards than it has room for.
pub record IsDun (dt : DunTy) (d : DunData) : Type 0 where
  pub place : d.dt ≡ dt
  pub bound : d.c ≤ room dt
  pub five : length d.cards ≡ 5

room-le : (dt : DunTy) → room dt ≤ 5
unfolding room
room-le dt = ground arith

length-write :
    (at : ℕ) (src cards : List ℕ)
    → at + length src ≤ length cards
    → length (write at src cards) ≡ length cards
unfolding write
length-write at src cards h = omega (
  arith,
  length-append (take at cards ++ src) (drop (at + length src) cards),
  length-append (take at cards) src,
  length-take at cards,
  length-drop (at + length src) cards,
)

pub assign_dun-IsDun :
    (dt : DunTy) (ty : HandTy) (src : List ℕ) (d d' : DunData)
    → IsDun dt d
    → assign_dun dt ty src d ≡ some d'
    → IsDun dt d'
unfolding assign_dun
assign_dun-IsDun dt ty src d d' v e =
    let fits : length src ≤ room dt = ground (arith, e) in
    let small : length src % 256 ≡ length src = mod-eq_of_lt (omega (arith, room-le dt, fits)) in
    let made : d' ≡ record { dt = dt; ty = ty; c = length src % 256; cards = write 0 src d.cards } =
      ground (arith, e) in
    rw made (record {
      place = refl;
      bound = omega (arith, small, fits);
      five = length-write 0 src d.cards (omega (arith, v.five, fits, room-le dt)) ∙ v.five;
    })

pub append_dun-IsDun :
    (dt : DunTy) (src : List ℕ) (d d' : DunData)
    → IsDun dt d
    → append_dun src d ≡ some d'
    → IsDun dt d' × (d'.c ≡ room dt)
unfolding append_dun
append_dun-IsDun dt src d d' v e =
    let full : d.c + length src ≡ room d.dt = ground (arith, e) in
    let here : room d.dt ≡ room dt = ap room v.place in
    let small : (d.c + length src) % 256 ≡ d.c + length src =
      mod-eq_of_lt (omega (arith, room-le dt, full, here)) in
    let made : d' ≡ record d { c = (d.c + length src) % 256; cards = write d.c src d.cards } =
      ground (arith, e) in
    rw made (
      record {
        place = v.place;
        bound = omega (arith, small, full, here);
        five =
            length-write d.c src d.cards (omega (arith, v.five, full, here, room-le dt)) ∙ v.five;
      },
      omega (arith, small, full, here),
    )

pub reset_dun-IsDun : (dt : DunTy) (d : DunData) → IsDun dt (record (reset_dun d) { dt = dt })
unfolding reset_dun
reset_dun-IsDun dt d = record { place = refl; bound = omega arith; five = refl }

pub need_c-eq :
    (dt : DunTy) (d : DunData)
    → is_dun dt ≡ true
    → IsDun dt d
    → need_c d ≡ some (pos (room dt - d.c))
unfolding need_c is_dun room
need_c-eq dun_nil d h v = cc
need_c-eq dun_first d h v = rw (v.place, need_c) (ground (arith, v.bound))
need_c-eq dun_second d h v = rw (v.place, need_c) (ground (arith, v.bound))
need_c-eq dun_last d h v = rw (v.place, need_c) (ground (arith, v.bound))
need_c-eq dun_max d h v = cc

pub append_dun-room :
    (dt : DunTy) (src : List ℕ) (d d' : DunData)
    → append_dun src d ≡ some d'
    → is_dun dt ≡ true
    → IsDun dt d
    → (0 < length src) × (need_c d ≡ some (pos (length src)))
unfolding append_dun
append_dun-room dt src d d' e h v =
    let full : d.c + length src ≡ room d.dt = ground (arith, e) in
    let some_cards : 0 < length src = ground (arith, e) in
    (some_cards, need_c-eq dt d h v ∙ ap (λ k. some (pos k)) (omega (arith, full, ap room v.place)))

pub append_dun-done :
    (dt : DunTy) (src : List ℕ) (d : DunData)
    → is_dun dt ≡ true
    → IsDun dt d
    → 0 < length src
    → need_c d ≡ some (pos (length src))
    → (d' : DunData) × (append_dun src d ≡ some d') × (need_c d' ≡ some (pos 0))
append_dun-done dt src d h v some_cards lacks =
    let left : room dt - d.c ≡ length src = ground (arith, lacks, need_c-eq dt d h v) in
    let full : d.c + length src ≡ room d.dt = omega (arith, left, some_cards, ap room v.place) in
    let place : is_dun d.dt ≡ true = ap is_dun v.place ∙ h in
    let d' = record d { c = (d.c + length src) % 256; cards = write d.c src d.cards } in
    let done : append_dun src d ≡ some d' =
      unfold append_dun in (ground (arith, some_cards, place, full)) in
    let (v', filled) = append_dun-IsDun dt src d d' v done in
    (d', done, need_c-eq dt d' h v' ∙ ap (λ k. some (pos k)) (omega (arith, filled)))
