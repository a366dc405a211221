-- ===== src/Engines.antt =====
-- The engine adapters of src/servepilot/engines.
pub mod Failures
