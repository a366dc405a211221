-- ===== src/Planner.antt =====
-- The planner of src/servepilot/planner.
pub mod Groups
pub mod Scoring
pub mod Sweep
pub mod Pareto
pub mod Memory
pub mod Pruning
pub mod Candidates
pub mod Inputs
pub mod CrossNode
pub mod Generation
