-- ===== src/Thirteen.antt =====
-- Games/Game_s13s/s13s.h: the three duns (piles of 3, 5 and 5 cards) of a hand of thirteen cards,
-- `dundata_t` and `groupdun_t`. Its asserts are taken to be compiled in. A pointer to cards and
-- their number are a list.
pub mod Duns
pub mod Groups
pub mod Hand
pub mod Status
use cppserver.Prelude.{
  ℕ, zero, suc, ◌+◌, ◌%◌, ◌==◌, ltb, leb, Bool, true, false, not, ◌&&◌, ◌||◌, List, [], ◌∷◌, ◌++◌,
  Option, none, some, assert, ◌>>=◌, ◌>>◌, if◌then◌else◌, length, take, drop,
}
use cppserver.Prelude.Int.{ℤ, pos, negsuc, sub_ℕ}

pub data HandTy : Type 0 where
  tysp ty20 ty22 ty30 ty123 tysc ty32 ty40 ty123sc ty_all_base : HandTy
  ty_three_sc ty_three123 ty_six20 ty_five2030 ty_four30 ty_two3220 ty_all_one_color : HandTy
  ty_all_small ty_all_big ty_three40 ty_three123sc ty12_royal ty_one_dragon ty_zzq_dragon : HandTy

unfoldable pub is_tysp : HandTy → Bool
is_tysp tysp = true
is_tysp _ = false

pub data DunTy : Type 0 where
  dun_nil dun_first dun_second dun_last dun_max : DunTy

-- One more than the enumerator's value.
unfoldable pub rank : DunTy → ℕ
rank dun_nil = 0
rank dun_first = 1
rank dun_second = 2
rank dun_last = 3
rank dun_max = 4

-- `dt > DunNil && dt < DunMax`.
unfoldable pub is_dun : DunTy → Bool
unfolding rank
is_dun dt = ltb 0 (rank dt) && ltb (rank dt) 4

-- `(dt == DunFirst) ? 3 : 5`.
unfoldable pub room : DunTy → ℕ
unfolding rank
room dt = if rank dt == 1 then 3 else 5

pub record DunData : Type 0 where
  pub dt : DunTy
  pub ty : HandTy
  pub c : ℕ
  pub cards : List ℕ

abbrev pub no_cards : List ℕ
no_cards = 0 ∷ 0 ∷ 0 ∷ 0 ∷ 0 ∷ []

unfoldable pub init_dun : DunData
init_dun = record { dt = dun_nil; ty = tysp; c = 0; cards = no_cards }

-- `memcpy(&cards[at], src, len)`; the asserts before it keep it inside the five cards.
unfoldable pub write : ℕ → List ℕ → List ℕ → List ℕ
write at src cards = take at cards ++ src ++ drop (at + length src) cards

unfoldable pub assign_dun : DunTy → HandTy → List ℕ → DunData → Option DunData
unfolding is_dun room is_tysp write
assign_dun dt ty src d = do
  assert (ltb 0 (length src))
  assert (is_dun dt)
  assert (leb (length src) (room dt))
  assert (is_tysp d.ty && d.c == 0)
  some (record { dt = dt; ty = ty; c = length src % 256; cards = write 0 src d.cards })

unfoldable pub reset_dun : DunData → DunData
reset_dun d = record d { ty = tysp; c = 0; cards = no_cards }

-- The number of cards that the dun lacks.
unfoldable pub need_c : DunData → Option ℤ
need_c d = elim d.dt [
  | dun_first ↦ some (sub_ℕ 3 d.c)
  | dun_second ↦ some (sub_ℕ 5 d.c)
  | dun_last ↦ some (sub_ℕ 5 d.c)
  | _ ↦ none
]

unfoldable pub append_dun : List ℕ → DunData → Option DunData
unfolding is_dun room write
append_dun src d = do
  assert (ltb 0 (length src))
  assert (is_dun d.dt)
  assert (d.c + length src == room d.dt)
  some (record d { c = (d.c + length src) % 256; cards = write d.c src d.cards })

-- `duns[0]`, `duns[1]` and `duns[2]` are fields of their own.
pub record GroupDun : Type 0 where
  pub start : DunTy
  pub special_ty : HandTy
  pub first : DunData
  pub second : DunData
  pub last : DunData
  pub deltascore : ℤ
  pub chair_id : ℤ

-- `duns[dt]`; an index outside the array is `none`.
unfoldable pub dun_at : DunTy → GroupDun → Option DunData
dun_at dun_first g = some g.first
dun_at dun_second g = some g.second
dun_at dun_last g = some g.last
dun_at _ g = none

unfoldable pub set_dun : DunTy → DunData → GroupDun → GroupDun
set_dun dun_first d g = record g { first = d }
set_dun dun_second d g = record g { second = d }
set_dun dun_last d g = record g { last = d }
set_dun _ d g = g

-- `groupdun_t::Reset`: the score and the chair stay.
unfoldable pub reset_group : GroupDun → GroupDun
unfolding reset_dun
reset_group g = record g {
  start = dun_nil;
  special_ty = tysp;
  first = record (reset_dun g.first) { dt = dun_first };
  second = record (reset_dun g.second) { dt = dun_second };
  last = record (reset_dun g.last) { dt = dun_last };
}

unfoldable pub init_group : GroupDun
unfolding init_dun reset_dun
init_group = record {
  start = dun_nil;
  special_ty = tysp;
  first = record (reset_dun init_dun) { dt = dun_first };
  second = record (reset_dun init_dun) { dt = dun_second };
  last = record (reset_dun init_dun) { dt = dun_last };
  deltascore = pos 0;
  chair_id = negsuc 0;
}

-- `groupdun_t::copy`, onto `g`.
unfoldable pub copy_group : GroupDun → GroupDun → GroupDun
copy_group ref g = record g {
  start = ref.start;
  special_ty = ref.special_ty;
  first = ref.first;
  second = ref.second;
  last = ref.last;
  deltascore = ref.deltascore;
  chair_id = ref.chair_id;
}

unfoldable pub assign_group : DunTy → HandTy → List ℕ → GroupDun → Option GroupDun
unfolding rank dun_at set_dun assign_dun
assign_group dt ty src g = do
  assert (not (rank dt == 0))
  d ← dun_at dt g
  d1 ← assign_dun dt ty src d
  some (record (set_dun dt d1 g) {
    start = if rank g.start == 0 || ltb (rank dt) (rank g.start) then dt else g.start;
  })

unfoldable pub need_c_group : DunTy → GroupDun → Option ℤ
unfolding dun_at need_c
need_c_group dt g = do d ← dun_at dt g; need_c d

unfoldable pub append_group : DunTy → List ℕ → GroupDun → Option GroupDun
unfolding dun_at set_dun append_dun
append_group dt src g = do d ← dun_at dt g; d1 ← append_dun src d; some (set_dun dt d1 g)

unfoldable pub get_c : GroupDun → ℕ
get_c g = g.first.c + g.second.c + g.last.c
