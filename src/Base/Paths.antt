-- ===== src/Base/Paths.antt =====
-- Unix paths as `std::path` compares, joins and strips them: by their components. A repeated or a
-- trailing slash and an inner `.` are gone once a path is a list of components.
use mathlib.Core.Path.{◌≡◌, refl, ap}
use mathlib.Core.Logic.{◌↔◌}
use mathlib.Core.Bool.{Bool, true, false}
use mathlib.Core.Option.{Option, none, some}
use mathlib.Core.List.{List, [], ◌∷◌, ◌++◌, reverse}
use native.Mathlib.Omega.{arith}
use claw_crate.Base.Tests.{if◌then◌else◌}
use claw_crate.Base.Strings.{Text}
use claw_crate.Base.Orders.{Order, nat_order, list_order, beq_list, lt_list, beq_list_iff}

pub data Component : Type 0 where
  root_dir cur_dir parent_dir : Component
  normal : Text → Component

-- The order and equality that `Component` derives: by variant, then by name.
abbrev pub rank : Component → Text
rank root_dir = 0 ∷ []
rank cur_dir = 1 ∷ []
rank parent_dir = 2 ∷ []
rank (normal s) = 3 ∷ s

pub rank_injective : (a b : Component) → rank a ≡ rank b → a ≡ b
rank_injective root_dir root_dir h = refl
rank_injective cur_dir cur_dir h = refl
rank_injective parent_dir parent_dir h = refl
rank_injective (normal s) (normal t) h = cc
rank_injective _ _ h = ground arith

pub rank_beq_iff : (a b : Component) → (beq_list (rank a) (rank b) ≡ true) ↔ (a ≡ b)
rank_beq_iff a b = (
  λ h. rank_injective a b ((beq_list_iff (rank a) (rank b)).0 h),
  λ e. (beq_list_iff (rank a) (rank b)).1 (ap rank e),
)

instance abbrev pub component_order : Order Component
component_order = record {
  lt = λ a b. lt_list (rank a) (rank b);
  beq = λ a b. beq_list (rank a) (rank b);
  beq_iff = rank_beq_iff;
  irrefl = λ a. list_order.irrefl (rank a);
  trans = λ a b c. list_order.trans (rank a) (rank b) (rank c);
  total = λ a b. list_order.total (rank a) (rank b);
}

abbrev pub FilePath : Type 0
FilePath = List Component

instance abbrev pub path_order : Order (List Component)
path_order = list_order

abbrev pub path_eq : FilePath → FilePath → Bool
path_eq = beq_list

pub path_eq_iff : (a b : FilePath) → (path_eq a b ≡ true) ↔ (a ≡ b)
path_eq_iff a b = beq_list_iff a b

-- `Path::is_absolute`.
abbrev pub is_absolute : FilePath → Bool
is_absolute (root_dir ∷ rest) = true
is_absolute _ = false

-- `Path::join`: an absolute path replaces the base; a leading `.` is dropped behind a base.
unfoldable pub join : FilePath → FilePath → FilePath
join base (root_dir ∷ rest) = root_dir ∷ rest
join [] path = path
join (b ∷ base) (cur_dir ∷ rest) = (b ∷ base) ++ rest
join (b ∷ base) path = (b ∷ base) ++ path

-- `Path::strip_prefix`.
unfoldable pub strip_path : FilePath → FilePath → Option FilePath
strip_path path [] = some path
strip_path [] (b ∷ base) = none
strip_path (c ∷ path) (b ∷ base) = if component_order.beq c b then strip_path path base else none

-- `Path::file_name`: the last component, if it is a name.
abbrev pub named : List Component → Option Text
named (normal s ∷ rest) = some s
named _ = none

abbrev pub file_name : FilePath → Option Text
file_name path = named (reverse path)

pub strip_path_iff : (path base r : FilePath) → (strip_path path base ≡ some r) ↔ (path ≡ base ++ r)
unfolding strip_path
strip_path_iff path [] r = ground arith
strip_path_iff [] (b ∷ base) r = ground arith
strip_path_iff (c ∷ path) (b ∷ base) r =
    ground (arith, strip_path_iff path base r, rank_beq_iff c b)
