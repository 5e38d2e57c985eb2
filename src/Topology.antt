-- ===== src/Topology.antt =====
-- src/topology: where the pointer leaves one machine's screens and lands on another's, and the
-- stored arrangement of the screens.
pub mod Geometry
pub mod Crossing
pub mod Arrangement
