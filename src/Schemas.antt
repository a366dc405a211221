-- ===== src/Schemas.antt =====
-- The data of src/servepilot/schemas.
pub mod Runtime
pub mod Hardware
pub mod Benchmark
pub mod Plan
pub mod Tuning
