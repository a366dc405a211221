-- ===== src/Lib.antt =====
-- A verification library for ServePilot (src/servepilot), which plans how to place a model on GPUs,
-- launches its replicas and serves requests through a router. It models the serving path, the
-- placement of replicas on GPUs and the choice of a plan by estimates and benchmarks.
--
-- The serving path. A request enters `proxy_generation` (api/proxy.py, module Api/Proxy), which
-- acquires a lease from the `ReplicaRouter` (runtime/router.py, module Runtime/Router), sends the
-- request to the leased replica, reroutes the lease at most once when the replica fails before its
-- body, streams the answer and releases the lease. The router asks a policy for a replica
-- (runtime/policies.py, Runtime/Policies) and limits requests with `asyncio.Semaphore`
-- (Runtime/Semaphore, by its documented behaviour). The `HealthChecker` (runtime/health.py,
-- Runtime/Health) changes the status of the replicas that the router may choose, and schedules
-- restarts within a budget, which `restart_replica` (runtime/replicas.py, Runtime/Replicas) carries
-- out. `start` and `stop` of a set of replicas (Runtime/Launch) are sequences of what their tasks
-- do between awaits. Replicas listen on ports of the `PortAllocator` (runtime/ports.py,
-- Runtime/Ports). The replica objects that these share are `ReplicaState` (schemas/runtime.py,
-- Schemas/Runtime). A stop from another process finds the deployment in its state file
-- (runtime/state.py, Runtime/State): Spared is about its signals and Wait about its waits. A whole
-- deployment (runtime/supervisor.py) is Runtime/Supervisor: a script says which awaits of its start
-- and shutdown raise.
--
-- The router is a record passed from operation to operation. Replica objects live on a heap and are
-- named by reference, since a lease keeps its object after a restart has replaced it in the dict.
-- Runtime/Router/World adds the leases that requests hold, and an event for each thing that a task
-- can do between two awaits, so that a run of events is an interleaving of the tasks; a suspended
-- `acquire` is a waiter of the semaphore. Ledger and Books, in Runtime/Router, account for the
-- in-flight counters, Permits, Slots and Limit for the permits, and Choice for the replicas that
-- are chosen. The proxy's awaits are functions on worlds: whatever the other tasks do while it
-- waits.
--
-- The placement. schemas/hardware.py and hardware/topology.py are Schemas/Hardware; the
-- `GPUGroupPlanner` (planner/gpu_groups.py) is Planner/Groups, with the exhaustive search in
-- Exhaustive and Found, the heuristic in Greedy, and the choice between them in Together; Nodes and
-- Local follow the GPUs to their machines.
--
-- The choice of a plan. planner/candidates.py generates the candidate plans (Planner/Candidates,
-- Planner/Inputs and Planner/Generation), of a machine or across machines (Planner/CrossNode), and
-- planner/pruning.py checks them (Planner/Pruning); planner/memory.py (Planner/Memory) estimates
-- whether a replica fits on its GPUs; planner/scoring.py scores measurements and selects a winner
-- (Planner/Scoring), stops sweeps and chooses an operating point (Planner/Sweep) and reports the
-- Pareto front (Planner/Pareto). The tuner (benchmark/tuner.py) is Benchmark: its state and its
-- evaluator in Tasks, the points of a sweep in Points, stage A in Structural, stage B in Sweeps,
-- and the choice of the winner, stages C and D and `tune` in Tuner. A step of the tuner is a
-- function from its state to a new state and a value or an exception; Sessions says, by a relation
-- on the calls to the evaluator, which sessions they leave open, and Winner which operating point
-- `_pick_winner` finds. The closed loop of the runner (benchmark/runner.py) is Benchmark/Runner.
-- The evaluator of the program, which launches a candidate on the shared ports, is
-- Benchmark/Evaluator. Records of finished tunings are kept in files by `CacheStore`
-- (cache/store.py, Cache/Store); its specification is a map with a count of files
-- (Cache/Store/Records).
--
-- Floats. Prelude/Numbers is an interface of Python's floats: operations, the order of the values
-- that the program computes (total and transitive, without NaN) and the signs of two expressions.
-- The library proves what holds of any such numbers; Examples/Decimals is an instance of it.
--
-- Bounds and fuel. `allocate` scans its range once, so the size of the range is fuel enough. The
-- exhaustive search takes a GPU from the remaining ones at each call, so their number is fuel
-- enough. The proxy's loop is recursion on the retries left, of which the source allows one. Waking
-- the waiters of the semaphore uses up a permit at each round, so the permits are fuel enough.
-- Integers of the source are Python's, and all that are modelled are natural numbers; a subtraction
-- that could go below 0 is clamped where the source clamps it. Times are clock ticks. The waits of
-- Runtime/State have fuel for a tick each up to their deadline. The loops that raise a concurrency
-- have fuel for one point more than the upper bound, which is enough from a concurrency of at least
-- 1 with a growth of at least 2; from 0, or with less growth, the loops of the source need not end.
--
-- Failures. When an engine does not come up, engines/failures.py (Engines/Failures) finds the type
-- of the failure with a table of patterns (Patterns), in the order of the table (Order).
--
-- Parameters. Whether a port can be bound, the answers of backends and of health probes, the clock,
-- the processes and signals of the operating system, the NVML readings, Python's order on strings
-- and `isalnum`, JSON files and their validation, Python's floats, the KV size per token, what an
-- engine adapter supports and what the sessions of the tuner answer are arguments.
--
-- Not modelled: the processes and command lines of engines, the sampling, the open loop and the
-- requests of benchmarks, the KV estimators, the cluster and cloud back ends, the command line, and printing,
-- logging and persistence.
mod Prelude
pub mod Schemas
pub mod Runtime
pub mod Api
pub mod Planner
pub mod Engines
pub mod Benchmark
pub mod Cache
mod Examples
