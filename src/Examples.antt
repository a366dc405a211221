-- ===== src/Examples.antt =====
-- The theorems at concrete inputs, and runs of the definitions.
mod Ports
mod Router
mod Health
mod Proxy
mod Planner
mod Engines
mod Replicas
mod Decimals
mod Scoring
mod Memory
mod Tuner
mod Candidates
mod State
mod Cache
mod Runner
