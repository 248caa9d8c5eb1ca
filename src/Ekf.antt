-- ===== src/Ekf.antt =====
-- The error-state Kalman filter: src/modules/EKF/python.
pub mod Types
pub mod Symforce
pub mod Derivation
pub mod Measurement
pub mod Layout
pub mod StateHeader
pub mod Script
pub mod Generated
pub mod Tabulate
pub mod Validation
pub mod Examples
pub mod HeaderExamples
