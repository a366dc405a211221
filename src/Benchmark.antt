-- ===== src/Benchmark.antt =====
-- src/servepilot/benchmark: the tuner.
pub mod Evaluator
pub mod Runner
pub mod Tasks
pub mod Points
pub mod Structural
pub mod Sweeps
pub mod Tuner
pub mod Sessions
pub mod Winner
