-- ===== src/Ekf/Validation.antt =====
-- The generated code computes what the derivation derives.
pub mod Transition
pub mod Columns
pub mod Covariance
pub mod Quadratic
pub mod ErrorValue
pub mod PredictedError
pub mod Jacobian
pub mod Entries
pub mod Prediction
pub mod Standstill
pub mod ChainRule
pub mod Updates
pub mod Sensors
pub mod Mag
pub mod Shapes
pub mod Segments
pub mod DataText
pub mod Header
pub mod IndexText
pub mod Script
