-- ===== src/Topology/Crossing/Landing.antt =====
-- A crossing always lands inside the other machine's bounds, and the boundary check keeps the
-- pointer inside its own.
use no_cap_kvm.Prelude.{
  true, false, List, ◌∷◌, ◌≡◌, refl, Bool-cases, leb→le, inl, inr, arith, ◌<◌, ◌+◌,
}
use no_cap_kvm.Prelude.Int.{ℤ, pos_part, neg_part, ◌+ℤ◌, ◌-ℤ◌, ◌≤ℤ◌, min_ℤ, max_ℤ, int_laws}
use no_cap_kvm.Topology.Geometry.{
  MonitorInfo, ClusterBounds, Direction, left, right, up, down, compute_bounds,
}
use no_cap_kvm.Topology.Geometry.Bounds.{IsOrdered, compute_bounds-IsOrdered}
use no_cap_kvm.Topology.Crossing.{
  clamp, leb_ℤ, land, compute_crossing, BoundaryCheck, check_boundary,
}

pub clamp-bounds : (v lo hi : ℤ) → lo ≤ℤ hi → (lo ≤ℤ clamp v lo hi) × (clamp v lo hi ≤ℤ hi)
unfolding clamp min_ℤ max_ℤ
clamp-bounds v lo hi h = ground arith

pub clamp-inside : (v lo hi : ℤ) → lo ≤ℤ v → v ≤ℤ hi → clamp v lo hi ≡ v
unfolding clamp min_ℤ max_ℤ
clamp-inside v lo hi h k = ground arith

-- The point lies inside the box, its edges included.
pub record Contains (b : ClusterBounds) (x y : ℤ) : Type 0 where
  pub x_ge : b.min_x ≤ℤ x
  pub x_le : x ≤ℤ b.max_x
  pub y_ge : b.min_y ≤ℤ y
  pub y_le : y ≤ℤ b.max_y

land-Contains :
    (b : ClusterBounds) (d : Direction) (offset perp : ℤ)
    → IsOrdered b
    → Contains b (land b d offset perp).x (land b d offset perp).y
unfolding land
land-Contains b right offset perp o =
    omega (int_laws, clamp-bounds perp offset (offset +ℤ (b.max_y -ℤ b.min_y)))
land-Contains b left offset perp o =
    omega (int_laws, clamp-bounds perp offset (offset +ℤ (b.max_y -ℤ b.min_y)))
land-Contains b down offset perp o =
    omega (int_laws, clamp-bounds perp offset (offset +ℤ (b.max_x -ℤ b.min_x)))
land-Contains b up offset perp o =
    omega (int_laws, clamp-bounds perp offset (offset +ℤ (b.max_x -ℤ b.min_x)))

land-has_target :
    (b : ClusterBounds) (d : Direction) (offset perp : ℤ) → (land b d offset perp).has_target ≡ true
unfolding land
land-has_target b d offset perp = ground arith

-- A crossing to a machine with at least one screen, of no negative size, has a target, and lands
-- inside the machine's bounds, whatever the offset and the position along the edge.
pub compute_crossing-Contains :
    (m : MonitorInfo) (ms : List MonitorInfo) (d : Direction) (offset perp : ℤ)
    → m.x ≤ℤ m.x +ℤ m.width
    → m.y ≤ℤ m.y +ℤ m.height
    → let c = compute_crossing (m ∷ ms) d offset perp in
      (c.has_target ≡ true) × Contains (compute_bounds (m ∷ ms)) c.x c.y
unfolding compute_crossing
compute_crossing-Contains m ms d offset perp w h = (
  land-has_target (compute_bounds (m ∷ ms)) d offset perp,
  land-Contains (compute_bounds (m ∷ ms)) d offset perp (compute_bounds-IsOrdered m ms w h),
)

-- a < b
abbrev pub ◌<ℤ◌ : ℤ → ℤ → Type 0
◌<ℤ◌ a b = pos_part a + neg_part b < pos_part b + neg_part a

-- Strictly inside: no edge is touched.
pub record IsInterior (b : ClusterBounds) (x y : ℤ) : Type 0 where
  pub x_gt : ◌<ℤ◌ b.min_x x
  pub x_lt : ◌<ℤ◌ x b.max_x
  pub y_gt : ◌<ℤ◌ b.min_y y
  pub y_lt : ◌<ℤ◌ y b.max_y

-- The point has reached this edge of the box.
abbrev pub Touches : ClusterBounds → ℤ → ℤ → Direction → Type 0
Touches b x y left = x ≤ℤ b.min_x
Touches b x y right = b.max_x ≤ℤ x
Touches b x y up = y ≤ℤ b.min_y
Touches b x y down = b.max_y ≤ℤ y

-- The coordinate along the edge.
abbrev pub along : Direction → ℤ → ℤ → ℤ
along left x y = y
along right x y = y
along up x y = x
along down x y = x

-- What the check says of a point: strictly inside, or at the edge that it names, with the clamped
-- coordinate along that edge.
pub data Verdict (b : ClusterBounds) (x y : ℤ) (r : BoundaryCheck) : Type 0 where
  inside : r.crossed ≡ false → IsInterior b x y → Verdict b x y r
  edge :
      r.crossed ≡ true
      → Touches b x y r.direction
      → r.perp_pos ≡ along r.direction r.clamped_x r.clamped_y
      → Verdict b x y r

check_boundary-Verdict : (b : ClusterBounds) (x y : ℤ) → Verdict b x y (check_boundary b x y)
unfolding check_boundary
check_boundary-Verdict b x y = elim (Bool-cases (leb_ℤ x b.min_x)) [
  | inl l ↦ rw l (edge refl (leb→le _ _ l) refl)
  | inr nl ↦ elim (Bool-cases (leb_ℤ b.max_x x)) [
    | inl r ↦ rw (nl, r) (edge refl (leb→le _ _ r) refl)
    | inr nr ↦ elim (Bool-cases (leb_ℤ y b.min_y)) [
      | inl u ↦ rw (nl, nr, u) (edge refl (leb→le _ _ u) refl)
      | inr nu ↦ elim (Bool-cases (leb_ℤ b.max_y y)) [
        | inl d ↦ rw (nl, nr, nu, d) (edge refl (leb→le _ _ d) refl)
        | inr nd ↦ rw (nl, nr, nu, nd) (inside refl (ground arith))
      ]
    ]
  ]
]

check_boundary-Contains :
    (b : ClusterBounds) (x y : ℤ)
    → IsOrdered b
    → Contains b (check_boundary b x y).clamped_x (check_boundary b x y).clamped_y
unfolding check_boundary
check_boundary-Contains b x y o =
    ground (arith, clamp-bounds x b.min_x b.max_x, clamp-bounds y b.min_y b.max_y)

-- With bounds in the right order, the boundary check clamps every point into them; it reports a
-- crossing exactly for a point that is not strictly inside, at an edge that the point has reached,
-- with the clamped coordinate along that edge.
pub check_boundary_lem :
    (b : ClusterBounds) (x y : ℤ)
    → IsOrdered b
    → Contains b (check_boundary b x y).clamped_x (check_boundary b x y).clamped_y
      × Verdict b x y (check_boundary b x y)
check_boundary_lem b x y o = (clamped, check_boundary-Verdict b x y)
  where
    clamped : Contains b (check_boundary b x y).clamped_x (check_boundary b x y).clamped_y
    clamped = check_boundary-Contains b x y o
