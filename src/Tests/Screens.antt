-- ===== src/Tests/Screens.antt =====
-- src/topology/crossing.cpp, for two machines with the same screen.
use no_cap_kvm.Prelude.{arith, ◌≡◌, true, [], ◌∷◌}
use no_cap_kvm.Prelude.Int.{pos, negsuc, ◌+ℤ◌, ◌-ℤ◌, min_ℤ, max_ℤ}
use no_cap_kvm.Topology.Geometry.{
  MonitorInfo, ArrangementEntry, ClusterBounds, right, compute_bounds, widen_all, widen,
}
use no_cap_kvm.Topology.Crossing.{compute_crossing}
use no_cap_kvm.Topology.Crossing.Landing.{Contains, compute_crossing-Contains}
use no_cap_kvm.Topology.Crossing.RoundTrip.{round_trip, perp, across, edge_of, round_trip_lem}

abbrev screen : MonitorInfo
screen = record {
  x = pos 0;
  y = pos 0;
  width = pos 1920;
  height = pos 1080;
  primary = true;
  name = [];
}

abbrev box : ClusterBounds
box = record { min_x = negsuc 9; max_x = pos 2000; min_y = negsuc 9; max_y = pos 2000 }

compute_crossing-Contains_example :
    let c = compute_crossing (screen ∷ []) right (pos 100) (pos 500) in
    (c.has_target ≡ true) × Contains (compute_bounds (screen ∷ [])) c.x c.y
unfolding ◌+ℤ◌
compute_crossing-Contains_example =
    compute_crossing-Contains screen [] right (pos 100) (pos 500) (omega arith) (omega arith)

abbrev entry : ArrangementEntry
entry = record { device_id = 7; direction = right; offset = pos 100 }

round_trip_lem_example :
    (perp right (round_trip screen [] screen [] entry (pos 500)) ≡ pos 500)
    × (across right (round_trip screen [] screen [] entry (pos 500))
        ≡ edge_of right (compute_bounds (screen ∷ [])))
unfolding ◌+ℤ◌ ◌-ℤ◌ compute_bounds widen_all widen min_ℤ max_ℤ
round_trip_lem_example =
    round_trip_lem screen [] screen [] entry (pos 500)
      (record { ge = omega arith; le = omega arith })
      (record { ge = omega arith; le = omega arith })
