-- ===== src/Topology/Geometry.antt =====
-- include/nockvm/display/monitor_info.h, include/nockvm/topology/crossing.h and arrangement.h: the
-- types of the screen geometry, and `compute_bounds` of src/topology/crossing.cpp. Coordinates are
-- exact integers: int32_t overflow is undefined in the source.
pub mod Bounds
use no_cap_kvm.Prelude.{ℕ, ◌^◌, ◌-◌, Bool, List, [], ◌∷◌, ◌≡◌, if◌then◌else◌}
use no_cap_kvm.Prelude.Int.{ℤ, pos, negsuc, ◌+ℤ◌, ◌≤ℤ◌, min_ℤ, max_ℤ}

pub record MonitorInfo : Type 0 where
  pub x : ℤ
  pub y : ℤ
  pub width : ℤ
  pub height : ℤ
  pub primary : Bool
  pub name : List ℕ

pub data Direction : Type 0 where
  left right up down : Direction

pub record ArrangementEntry : Type 0 where
  pub device_id : ℕ
  pub direction : Direction
  pub offset : ℤ

pub record ClusterBounds : Type 0 where
  pub min_x : ℤ
  pub max_x : ℤ
  pub min_y : ℤ
  pub max_y : ℤ

abbrev pub i32_max : ℤ
i32_max = pos (2 ^ 31 - 1)

abbrev pub i32_min : ℤ
i32_min = negsuc (2 ^ 31 - 1)

-- One round of the loop of `compute_bounds`.
unfoldable pub widen : ClusterBounds → MonitorInfo → ClusterBounds
widen b m = record {
  min_x = min_ℤ b.min_x m.x;
  max_x = max_ℤ b.max_x (m.x +ℤ m.width);
  min_y = min_ℤ b.min_y m.y;
  max_y = max_ℤ b.max_y (m.y +ℤ m.height);
}

unfoldable pub widen_all : ClusterBounds → List MonitorInfo → ClusterBounds
widen_all b [] = b
widen_all b (m ∷ ms) = widen_all (widen b m) ms

unfoldable pub compute_bounds : List MonitorInfo → ClusterBounds
compute_bounds =
    widen_all (record { min_x = i32_max; max_x = i32_min; min_y = i32_max; max_y = i32_min })

-- The screen lies inside the box.
pub record Covers (b : ClusterBounds) (m : MonitorInfo) : Type 0 where
  pub left_in : b.min_x ≤ℤ m.x
  pub right_in : m.x +ℤ m.width ≤ℤ b.max_x
  pub top_in : b.min_y ≤ℤ m.y
  pub bottom_in : m.y +ℤ m.height ≤ℤ b.max_y

abbrev pub CoversAll : ClusterBounds → List MonitorInfo → Type 0
CoversAll b [] = Unit {0}
CoversAll b (m ∷ ms) = Covers b m × CoversAll b ms

-- The first box lies inside the second.
pub record Within (b c : ClusterBounds) : Type 0 where
  pub left_in : c.min_x ≤ℤ b.min_x
  pub right_in : b.max_x ≤ℤ c.max_x
  pub top_in : c.min_y ≤ℤ b.min_y
  pub bottom_in : b.max_y ≤ℤ c.max_y
