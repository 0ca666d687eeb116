-- ===== src/Tests/Cards.antt =====
-- Tests of the models of Games/Game_s13s/s13s.h.
use cppserver.Prelude.{◌≤◌, ◌≡◌, refl, ◌↔◌, List, [], ◌∷◌, some}
use cppserver.Prelude.Int.{pos, negsuc}
use cppserver.Thirteen.{
  GroupDun, dun_nil, dun_first, dun_second, dun_last, tysp, ty20, init_group, no_cards,
  append_group, need_c_group, get_c,
}
use cppserver.Thirteen.Groups.{Call, assigns, appends, IsGroup, run, get_c-run}

-- A pair in the first dun.
abbrev calls : List Call
calls = assigns dun_first ty20 (17 ∷ 33 ∷ []) ∷ []

abbrev pair : GroupDun
pair = record {
  start = dun_first;
  special_ty = tysp;
  first = record { dt = dun_first; ty = ty20; c = 2; cards = 17 ∷ 33 ∷ 0 ∷ 0 ∷ 0 ∷ [] };
  second = record { dt = dun_second; ty = tysp; c = 0; cards = no_cards };
  last = record { dt = dun_last; ty = tysp; c = 0; cards = no_cards };
  deltascore = pos 0;
  chair_id = negsuc 0;
}

get_c-run_example :
    IsGroup pair
    × (get_c pair ≤ 13)
    × ((get_c pair ≡ 13) ↔ (
        (need_c_group dun_first pair ≡ some (pos 0))
        × (need_c_group dun_second pair ≡ some (pos 0))
        × (need_c_group dun_last pair ≡ some (pos 0))))
unfolding run cppserver.Thirteen.Groups.step cppserver.Thirteen.assign_group init_group
get_c-run_example = get_c-run calls pair refl
