-- ===== src/Bridge.antt =====
-- The MAVLink bridge to the Gazebo simulator,
-- scripts/simulation/gazebo/infinity_gazebo_bridge.py.
pub mod Int
pub mod Float
pub mod Atmosphere
pub mod Messages
pub mod Sensors
pub mod Motors
pub mod Threads
pub mod Fractions
pub mod Residues
pub mod Validation
pub mod Examples
