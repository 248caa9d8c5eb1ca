-- ===== src/Ekf/Generated.antt =====
-- The functions that SymForce generated from the derivation: src/modules/EKF/python/generated.
pub mod Arrays
pub mod PredictCovariance
pub mod GpsPos
pub mod GpsVel
pub mod Mag
pub mod Baro
pub mod Lidar
