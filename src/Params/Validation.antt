-- ===== src/Params/Validation.antt =====
-- What the parameters' generator guarantees.
pub mod Described
pub mod Documents
pub mod Collected
pub mod Table
pub mod Names
