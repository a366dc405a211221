-- ===== src/Cache.antt =====
-- The cache of tuning records: src/servepilot/cache/*.py.
pub mod Store
