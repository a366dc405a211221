-- ===== src/Runtime.antt =====
-- The runtime of a deployment: src/servepilot/runtime/*.py.
pub mod Ports
pub mod Policies
pub mod Semaphore
pub mod Router
pub mod Health
pub mod Replicas
pub mod Launch
pub mod State
pub mod Supervisor
