-- ===== src/Topology/Crossing.antt =====
-- src/topology/crossing.cpp: where the pointer lands behind an edge, when it has reached one, and
-- the arrangement seen from the other side.
pub mod Landing
pub mod RoundTrip
use no_cap_kvm.Prelude.{ℕ, Bool, true, false, ◌||◌, List, [], ◌∷◌, if◌then◌else◌, ltb, leb, ◌+◌}
use no_cap_kvm.Prelude.Int.{ℤ, pos, pos_part, neg_part, ◌+ℤ◌, ◌-ℤ◌, ◌≤ℤ◌, min_ℤ, max_ℤ}
use no_cap_kvm.Topology.Geometry.{
  MonitorInfo, ClusterBounds, ArrangementEntry, Direction, left, right, up, down, compute_bounds,
}

unfoldable pub clamp : ℤ → ℤ → ℤ → ℤ
clamp value lo hi = min_ℤ (max_ℤ value lo) hi

abbrev pub leb_ℤ : ℤ → ℤ → Bool
leb_ℤ a b = leb (pos_part a + neg_part b) (pos_part b + neg_part a)

-- direction == Left || direction == Right
abbrev pub is_horizontal : Direction → Bool
is_horizontal left = true
is_horizontal right = true
is_horizontal up = false
is_horizontal down = false

pub record CrossingResult : Type 0 where
  pub has_target : Bool
  pub x : ℤ
  pub y : ℤ

-- The landing point on the edge of `b` that faces the machine the pointer comes from.
unfoldable pub land : ClusterBounds → Direction → ℤ → ℤ → CrossingResult
land b right offset perp_pos = record {
  has_target = true;
  x = b.min_x;
  y = clamp perp_pos offset (offset +ℤ (b.max_y -ℤ b.min_y)) -ℤ offset +ℤ b.min_y;
}
land b left offset perp_pos = record {
  has_target = true;
  x = b.max_x;
  y = clamp perp_pos offset (offset +ℤ (b.max_y -ℤ b.min_y)) -ℤ offset +ℤ b.min_y;
}
land b down offset perp_pos = record {
  has_target = true;
  x = clamp perp_pos offset (offset +ℤ (b.max_x -ℤ b.min_x)) -ℤ offset +ℤ b.min_x;
  y = b.min_y;
}
land b up offset perp_pos = record {
  has_target = true;
  x = clamp perp_pos offset (offset +ℤ (b.max_x -ℤ b.min_x)) -ℤ offset +ℤ b.min_x;
  y = b.max_y;
}

unfoldable pub compute_crossing : List MonitorInfo → Direction → ℤ → ℤ → CrossingResult
compute_crossing [] direction offset perp_pos = record { has_target = false; x = pos 0; y = pos 0 }
compute_crossing (m ∷ ms) direction offset perp_pos =
    land (compute_bounds (m ∷ ms)) direction offset perp_pos

-- `direction` is uninitialised in the source while `crossed` is false; the model puts `left` there.
pub record BoundaryCheck : Type 0 where
  pub crossed : Bool
  pub direction : Direction
  pub clamped_x : ℤ
  pub clamped_y : ℤ
  pub perp_pos : ℤ

unfoldable pub check_boundary : ClusterBounds → ℤ → ℤ → BoundaryCheck
check_boundary bounds x y =
    let cx = clamp x bounds.min_x bounds.max_x in
    let cy = clamp y bounds.min_y bounds.max_y in
    let at_edge = λ (d : Direction) (perp : ℤ).
      (let r : BoundaryCheck = record {
        crossed = true;
        direction = d;
        clamped_x = cx;
        clamped_y = cy;
        perp_pos = perp;
      } in
        r) in
    if leb_ℤ x bounds.min_x
    then at_edge left cy
    else if leb_ℤ bounds.max_x x
    then at_edge right cy
    else if leb_ℤ y bounds.min_y
    then at_edge up cx
    else if leb_ℤ bounds.max_y y
    then at_edge down cx
    else record {
      crossed = false;
      direction = left;
      clamped_x = cx;
      clamped_y = cy;
      perp_pos = pos 0;
    }

unfoldable pub opposite : Direction → Direction
opposite left = right
opposite right = left
opposite up = down
opposite down = up

unfoldable pub invert_entry : ArrangementEntry → ClusterBounds → ClusterBounds → ArrangementEntry
unfolding opposite
invert_entry entry master_bounds peer_bounds = record {
  device_id = entry.device_id;
  direction = opposite entry.direction;
  offset =
      if is_horizontal entry.direction
      then peer_bounds.min_y +ℤ master_bounds.min_y -ℤ entry.offset
      else peer_bounds.min_x +ℤ master_bounds.min_x -ℤ entry.offset;
}
