-- ===== src/Thirteen/Hand/Selection.antt =====
-- Games/Game_s13s/s13s.h, `handinfo_t`: the selection.
use cppserver.Prelude.{◌≡◌, ◌↔◌, true, arith}
use cppserver.Thirteen.Hand.{HandInfo, has_selected, is_manual_selected, has_manual_group}

-- A manual arrangement is selected exactly if some group is selected, there is a manual
-- arrangement, and the two indices agree.
pub is_manual_selected_iff :
    (h : HandInfo)
    → (is_manual_selected h ≡ true) ↔ (
        (has_selected h ≡ true)
        × (has_manual_group h ≡ true)
        × (h.select_group_index ≡ h.manual_group_index))
unfolding is_manual_selected has_selected has_manual_group
is_manual_selected_iff h = ground arith
