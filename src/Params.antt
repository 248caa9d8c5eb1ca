-- ===== src/Params.antt =====
-- The generator of the parameters' table, scripts/params/generate_params.py.
pub mod Yaml
pub mod Collect
pub mod Generate
pub mod Validation
pub mod Examples
