-- ===== src/Topology/Geometry/Bounds.antt =====
-- `compute_bounds` is the least box round the screens.
use no_cap_kvm.Prelude.{List, [], ◌∷◌, arith}
use no_cap_kvm.Prelude.Int.{◌+ℤ◌, ◌≤ℤ◌, min_ℤ, max_ℤ, min_max, le-min_ℤ, max_ℤ-le}
use no_cap_kvm.Topology.Geometry.{
  MonitorInfo, ClusterBounds, i32_max, i32_min, widen, widen_all, compute_bounds, Covers, CoversAll,
  Within,
}

widen-Within : (b : ClusterBounds) (m : MonitorInfo) → Within b (widen b m)
unfolding widen
widen-Within b m = omega min_max

widen-Covers : (b : ClusterBounds) (m : MonitorInfo) → Covers (widen b m) m
unfolding widen
widen-Covers b m = omega min_max

widen_all-Within : (b : ClusterBounds) (ms : List MonitorInfo) → Within b (widen_all b ms)
unfolding widen_all
widen_all-Within b [] = omega arith
widen_all-Within b (m ∷ ms) = omega (arith, widen-Within b m, widen_all-Within (widen b m) ms)

widen_all-CoversAll : (b : ClusterBounds) (ms : List MonitorInfo) → CoversAll (widen_all b ms) ms
unfolding widen_all
widen_all-CoversAll b [] = tt
widen_all-CoversAll b (m ∷ ms) = (
  omega (arith, widen-Covers b m, widen_all-Within (widen b m) ms),
  widen_all-CoversAll (widen b m) ms,
)

widen-least :
    (b c : ClusterBounds) (m : MonitorInfo) → Within b c → Covers c m → Within (widen b m) c
unfolding widen
widen-least b c m w k = record {
  left_in = le-min_ℤ b.min_x m.x c.min_x w.left_in k.left_in;
  right_in = max_ℤ-le b.max_x (m.x +ℤ m.width) c.max_x w.right_in k.right_in;
  top_in = le-min_ℤ b.min_y m.y c.min_y w.top_in k.top_in;
  bottom_in = max_ℤ-le b.max_y (m.y +ℤ m.height) c.max_y w.bottom_in k.bottom_in;
}

widen_all-least :
    (b c : ClusterBounds) (ms : List MonitorInfo)
    → Within b c
    → CoversAll c ms
    → Within (widen_all b ms) c
unfolding widen_all
widen_all-least b c [] w k = w
widen_all-least b c (m ∷ ms) w k = widen_all-least (widen b m) c ms (widen-least b c m w k.0) k.1

-- The edges of the screen are values of int32_t.
pub record InRange (m : MonitorInfo) : Type 0 where
  pub x_le : m.x ≤ℤ i32_max
  pub right_ge : i32_min ≤ℤ m.x +ℤ m.width
  pub y_le : m.y ≤ℤ i32_max
  pub bottom_ge : i32_min ≤ℤ m.y +ℤ m.height

-- The first screen replaces the sentinels with which the loop starts.
first-least :
    (c : ClusterBounds) (m : MonitorInfo)
    → InRange m
    → Covers c m
    → Within
        (widen (record { min_x = i32_max; max_x = i32_min; min_y = i32_max; max_y = i32_min }) m)
        c
unfolding widen min_ℤ max_ℤ
first-least c m r k = record {
  left_in = ground (arith, r.x_le, k.left_in);
  right_in = ground (arith, r.right_ge, k.right_in);
  top_in = ground (arith, r.y_le, k.top_in);
  bottom_in = ground (arith, r.bottom_ge, k.bottom_in);
}

-- The bounds of a set of screens cover every screen, and lie within every box that does, if the first
-- screen's edges fit an int32_t.
pub compute_bounds-least :
    (c : ClusterBounds) (m : MonitorInfo) (ms : List MonitorInfo)
    → InRange m
    → CoversAll c (m ∷ ms)
    → CoversAll (compute_bounds (m ∷ ms)) (m ∷ ms) × Within (compute_bounds (m ∷ ms)) c
unfolding compute_bounds widen_all
compute_bounds-least c m ms r k =
    (widen_all-CoversAll _ (m ∷ ms), widen_all-least _ c ms (first-least c m r k.0) k.1)

-- Screens of no negative size have bounds in the right order.
pub record IsOrdered (b : ClusterBounds) : Type 0 where
  pub x_order : b.min_x ≤ℤ b.max_x
  pub y_order : b.min_y ≤ℤ b.max_y

pub compute_bounds-IsOrdered :
    (m : MonitorInfo) (ms : List MonitorInfo)
    → m.x ≤ℤ m.x +ℤ m.width
    → m.y ≤ℤ m.y +ℤ m.height
    → IsOrdered (compute_bounds (m ∷ ms))
unfolding compute_bounds
compute_bounds-IsOrdered m ms w h =
    let c =
      (widen_all-CoversAll
        (record { min_x = i32_max; max_x = i32_min; min_y = i32_max; max_y = i32_min })
        (m ∷ ms)).0 in
    omega (arith, c)
