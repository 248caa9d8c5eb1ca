-- ===== src/Bridge/Validation.antt =====
-- What the bridge guarantees.
pub mod SensorMessage
pub mod History
pub mod Counts
pub mod HilSensors
pub mod Heartbeats
pub mod Ending
pub mod MotorBounds
pub mod MotorSafety
pub mod Course
pub mod Lidar
