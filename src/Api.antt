-- ===== src/Api.antt =====
-- The HTTP layer of src/servepilot/api.
pub mod Proxy
