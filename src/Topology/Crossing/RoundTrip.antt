-- ===== src/Topology/Crossing/RoundTrip.antt =====
-- Crossing out and straight back: the inverted arrangement entry undoes the stored one.
use no_cap_kvm.Prelude.{ℕ, List, ◌∷◌, ◌≡◌, refl, if◌then◌else◌}
use no_cap_kvm.Prelude.Int.{ℤ, ◌+ℤ◌, ◌-ℤ◌, ◌≤ℤ◌, int_laws}
use no_cap_kvm.Topology.Geometry.{
  MonitorInfo, ClusterBounds, ArrangementEntry, Direction, left, right, up, down, compute_bounds,
}
use no_cap_kvm.Topology.Crossing.{
  clamp, land, CrossingResult, compute_crossing, invert_entry, is_horizontal,
}
use no_cap_kvm.Topology.Crossing.Landing.{clamp-inside}

-- The interval that a machine's bounds span along an edge, and the coordinate of the edge itself.
abbrev pub span_lo : Direction → ClusterBounds → ℤ
span_lo d b = if is_horizontal d then b.min_y else b.min_x

abbrev pub span_hi : Direction → ClusterBounds → ℤ
span_hi d b = if is_horizontal d then b.max_y else b.max_x

abbrev pub edge_of : Direction → ClusterBounds → ℤ
edge_of left b = b.min_x
edge_of right b = b.max_x
edge_of up b = b.min_y
edge_of down b = b.max_y

abbrev pub across : Direction → CrossingResult → ℤ
across d r = if is_horizontal d then r.x else r.y

abbrev pub perp : Direction → CrossingResult → ℤ
perp d r = if is_horizontal d then r.y else r.x

-- `a` lies between `lo` and `hi`.
pub record Between (a lo hi : ℤ) : Type 0 where
  pub ge : lo ≤ℤ a
  pub le : a ≤ℤ hi

-- Out and back along one axis.
shift_back :
    (p off m_lo m_hi p_lo p_hi : ℤ)
    → Between p m_lo m_hi
    → Between p off (off +ℤ (p_hi -ℤ p_lo))
    → let q = clamp p off (off +ℤ (p_hi -ℤ p_lo)) -ℤ off +ℤ p_lo in
      let inv = p_lo +ℤ m_lo -ℤ off in clamp q inv (inv +ℤ (m_hi -ℤ m_lo)) -ℤ inv +ℤ m_lo ≡ p
shift_back p off m_lo m_hi p_lo p_hi u v =
    let q = p -ℤ off +ℤ p_lo in
    let inv = p_lo +ℤ m_lo -ℤ off in
    rw
      (
        clamp-inside p off (off +ℤ (p_hi -ℤ p_lo)) v.ge v.le,
        clamp-inside q inv (inv +ℤ (m_hi -ℤ m_lo)) (omega int_laws) (omega int_laws),
      )
      (omega int_laws)

-- The way back of a crossing, to the machine that it left.
abbrev pub come_back : ClusterBounds → ClusterBounds → ArrangementEntry → ℤ → CrossingResult
come_back mb pb e p =
    let out = land pb e.direction e.offset p in
    let inv = invert_entry e mb pb in land mb inv.direction inv.offset (perp e.direction out)

land-back :
    (mb pb : ClusterBounds) (id : ℕ) (d : Direction) (off p : ℤ)
    → Between p (span_lo d mb) (span_hi d mb)
    → Between p off (off +ℤ (span_hi d pb -ℤ span_lo d pb))
    → let back = come_back mb pb (record { device_id = id; direction = d; offset = off }) p in
      (perp d back ≡ p) × (across d back ≡ edge_of d mb)
unfolding land invert_entry
land-back mb pb id left off p u v = (shift_back p off mb.min_y mb.max_y pb.min_y pb.max_y u v, refl)
land-back mb pb id right off p u v =
    (shift_back p off mb.min_y mb.max_y pb.min_y pb.max_y u v, refl)
land-back mb pb id up off p u v = (shift_back p off mb.min_x mb.max_x pb.min_x pb.max_x u v, refl)
land-back mb pb id down off p u v = (shift_back p off mb.min_x mb.max_x pb.min_x pb.max_x u v, refl)

-- The two crossings of a round trip, as `handle_master_owned` and `handle_slave_owned` make them.
abbrev pub round_trip :
    MonitorInfo
    → List MonitorInfo
    → MonitorInfo
    → List MonitorInfo
    → ArrangementEntry
    → ℤ
    → CrossingResult
round_trip m ms s ss e p =
    let out = compute_crossing (s ∷ ss) e.direction e.offset p in
    let inv = invert_entry e (compute_bounds (m ∷ ms)) (compute_bounds (s ∷ ss)) in
    compute_crossing (m ∷ ms) inv.direction inv.offset (perp e.direction out)

-- A pointer that crosses out at position `p` along the edge, where the two machines' screens face
-- one another, and straight back, is at position `p` again, on the edge of the Master's bounds that
-- it left by.
pub round_trip_lem :
    (m : MonitorInfo) (ms : List MonitorInfo) (s : MonitorInfo) (ss : List MonitorInfo)
    (e : ArrangementEntry) (p : ℤ)
    → Between p
        (span_lo e.direction (compute_bounds (m ∷ ms)))
        (span_hi e.direction (compute_bounds (m ∷ ms)))
    → Between p e.offset (
        e.offset
        +ℤ (span_hi e.direction (compute_bounds (s ∷ ss))
            -ℤ span_lo e.direction (compute_bounds (s ∷ ss))))
    → (perp e.direction (round_trip m ms s ss e p) ≡ p)
      × (across e.direction (round_trip m ms s ss e p)
          ≡ edge_of e.direction (compute_bounds (m ∷ ms)))
unfolding compute_crossing
round_trip_lem m ms s ss e p u v =
    land-back (compute_bounds (m ∷ ms)) (compute_bounds (s ∷ ss)) e.device_id e.direction e.offset p
      u v
