-- ===== src/Thirteen/Hand.antt =====
-- Games/Game_s13s/s13s.h, `classify_t` and `handinfo_t`: a player's hand, its destructor
-- and its selection. A tree is a number; a pointer to a group says whose
-- hand it points into.
pub mod Selection
use cppserver.Prelude.{
  ℕ, Bool, true, false, not, ◌&&◌, List, [], ◌∷◌, Option, none, some, if◌then◌else◌, ◌==◌,
}
use cppserver.Prelude.Int.{ℤ, pos, negsuc}
use cppserver.Prelude.Maps.{beq_ℤ}
use cppserver.Thirteen.{HandTy, tysp, GroupDun, copy_group, get_c}

pub record Classify : Type 0 where
  pub c4 : ℤ
  pub c3 : ℤ
  pub c2 : ℤ
  pub dst4 : List (List ℕ)
  pub dst3 : List (List ℕ)
  pub dst2 : List (List ℕ)
  pub cpy : List ℕ
  pub cpylen : ℤ

unfoldable pub copy_classify : Classify → Classify → Classify
copy_classify ref c = record c {
  c4 = ref.c4;
  c3 = ref.c3;
  c2 = ref.c2;
  cpylen = ref.cpylen;
  dst4 = ref.dst4;
  dst3 = ref.dst3;
  dst2 = ref.dst2;
  cpy = ref.cpy;
}

pub data Place : Type 0 where
  spec_place : ℕ → Place
  enum_place : ℕ → Place
  manual_place : Place

-- A `groupdun_t const*`: the hand that owns the group, and where it is in it.
pub record Pointer : Type 0 where
  pub owner : ℕ
  pub place : Place

pub record HandInfo : Type 0 where
  pub forswap : Bool
  pub chair_id : ℤ
  pub spec_groups : List GroupDun
  pub classify : Classify
  pub root_enum_list : Option ℕ
  pub enum_groups : List GroupDun
  pub manual_group : GroupDun
  pub manual_group_index : ℤ
  pub select_group_index : ℤ
  pub groups : List Pointer
  pub leaf_list : List (ℕ × ℤ)

-- What the destructor releases and deletes.
unfoldable pub released : HandInfo → List ℕ
released h = elim h.root_enum_list [ none ↦ [] | some tree ↦ if h.forswap then [] else tree ∷ [] ]

unfoldable pub has_selected : HandInfo → Bool
has_selected h = not (beq_ℤ h.select_group_index (negsuc 0))

unfoldable pub is_manual_selected : HandInfo → Bool
is_manual_selected h =
    not (beq_ℤ h.select_group_index (negsuc 0)) && beq_ℤ h.select_group_index h.manual_group_index

unfoldable pub has_manual_group : HandInfo → Bool
has_manual_group h = not (beq_ℤ h.manual_group_index (negsuc 0))

unfoldable pub get_manual_c : HandInfo → ℕ
unfolding get_c
get_manual_c h = get_c h.manual_group

unfoldable pub special_ty_of : HandInfo → HandTy
special_ty_of h = elim h.spec_groups [ [] ↦ tysp | g ∷ gs ↦ g.special_ty ]
