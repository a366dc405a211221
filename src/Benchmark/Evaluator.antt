-- ===== src/Benchmark/Evaluator.antt =====
-- src/servepilot/benchmark/evaluator.py: `LaunchingEvaluator` and `LaunchedSession` on the port
-- allocator that all candidates share, and the free memory before a launch and after a stop.
pub mod Returned
use open_baseten_inference.Prelude.{
  zero, suc, ℕ, Bool, true, false, not, ◌&&◌, Option, none, some, List, [], ◌∷◌, ◌+◌, ltb, leb,
  ◌==◌, if◌then◌else◌,
}
use open_baseten_inference.Schemas.Hardware.{GpuDevice, HardwareSnapshot}
use open_baseten_inference.Runtime.Ports.{PortAllocator}
use open_baseten_inference.Runtime.Router.{ReplicaRouter}
use open_baseten_inference.Runtime.Launch.{ReplicaSet, LaunchEvent, launch_run, stop}

-- `snap.gpu(gid).free_memory_bytes`, none for a `KeyError`
abbrev pub free_of : ℕ → List GpuDevice → Option ℕ
free_of gid [] = none
free_of gid (g ∷ gs) =
    let rest = free_of gid gs in if g.index == gid then some g.free_memory_bytes else rest

-- the dict that `_free_memory` builds; an id that comes again has the same entry
abbrev with_entry : ℕ → Option ℕ → List (ℕ × ℕ) → List (ℕ × ℕ)
with_entry gid none rest = rest
with_entry gid (some free) rest = (gid, free) ∷ rest

abbrev pub free_memory : HardwareSnapshot → List ℕ → List (ℕ × ℕ)
free_memory snap [] = []
free_memory snap (gid ∷ ids) = with_entry gid (free_of gid snap.gpus) (free_memory snap ids)

-- `revalidate_free_memory` with the budget of the plan's estimate: the GPU that has too little
abbrev first_short : ℕ → List (ℕ × ℕ) → Option ℕ
first_short budget [] = none
first_short budget ((gid, free) ∷ rest) =
    let later = first_short budget rest in if ltb free budget then some gid else later

unfoldable pub revalidate_free_memory : Option ℕ → HardwareSnapshot → List ℕ → Option ℕ
revalidate_free_memory none snap ids = none
revalidate_free_memory (some budget) snap ids = first_short budget (free_memory snap ids)

-- 2 GiB
abbrev pub cleanup_tolerance : ℕ
cleanup_tolerance = 2147483648

abbrev near : ℕ → Option ℕ → Bool
near free none = true
near free (some now) = leb free (now + cleanup_tolerance)

-- `worst <= CLEANUP_MEMORY_TOLERANCE_BYTES`, where a GPU that is not read counts as back
abbrev pub is_back : List (ℕ × ℕ) → List GpuDevice → Bool
is_back [] gpus = true
is_back ((gid, free) ∷ rest) gpus = near free (free_of gid gpus) && is_back rest gpus

-- the ways in which a wait for the memory ends
pub data Waited : Type 0 where
  memory_back unread timed_out out_of_fuel : Waited

-- the hardware provider and the clock; a reading is none where it raises
pub record Probe : Type 1 where
  pub World : Type 0
  pub snapshot : World → Option HardwareSnapshot × World
  pub monotonic : World → ℕ
  pub sleep : ℕ → World → World

module _ (o : Probe) (baseline : List (ℕ × ℕ)) where
  open o use {World, snapshot, monotonic, sleep}

  -- one round of `_wait_for_cleanup`, before its sleep: the end of the wait, if it ends
  abbrev pub looked : ℕ → Option HardwareSnapshot × World → Option Waited × World
  looked deadline (none, w) = (some unread, w)
  looked deadline (some snap, w) =
      if is_back baseline snap.gpus
      then (some memory_back, w)
      else if ltb deadline (monotonic w)
      then (some timed_out, w)
      else (none, w)

  abbrev pub continued_wait : (World → Waited × World) → Option Waited × World → Waited × World
  continued_wait again (some end, w) = (end, w)
  continued_wait again (none, w) = again (sleep 100 w)

  -- with fuel
  unfoldable pub cleanup_loop : ℕ → ℕ → World → Waited × World
  cleanup_loop deadline zero w = (out_of_fuel, w)
  cleanup_loop deadline (suc fuel) w =
      continued_wait (cleanup_loop deadline fuel) (looked deadline (snapshot w))

-- what an evaluation meets: true where a step ends, false where it raises an `Exception`
pub record Evaluation : Type 0 where
  pub engine_available : Bool
  pub budget : Option ℕ
  pub hardware : HardwareSnapshot
  pub gpu_ids : List ℕ
  pub launches : List LaunchEvent
  pub all_launched : Bool
  pub server_starts : Bool
  pub router : ReplicaRouter
  -- what the benchmarks do to the router
  pub meanwhile : ReplicaRouter → ReplicaRouter
  -- whether all processes were gone when the set stopped
  pub all_gone : Bool

pub record LaunchedSession : Type 0 where
  pub replica_set : ReplicaSet
  pub closed : Bool

-- a session, a `CandidateLaunchFailed`, or another exception
pub data OpenResult : Type 0 where
  opened : LaunchedSession → OpenResult
  launch_failed unavailable server_failed : OpenResult

abbrev pub no_gpu : Option ℕ → Bool
no_gpu none = true
no_gpu (some n) = false

abbrev pub new_set : ReplicaRouter → PortAllocator → ReplicaSet
new_set router ports = record {
  ports = ports;
  router = router;
  replicas = [];
  allocated_ports = [];
}

-- `open`: `ReplicaSet.start` stops the set where a launch fails
unfoldable pub open_session : Evaluation → PortAllocator → OpenResult × PortAllocator
unfolding revalidate_free_memory
open_session e ports =
    let set = launch_run e.launches (new_set e.router ports) in
    if not e.engine_available
    then (unavailable, ports)
    else if not (no_gpu (revalidate_free_memory e.budget e.hardware e.gpu_ids))
    then (launch_failed, ports)
    else if not e.all_launched
    then (launch_failed, (stop set).ports)
    else if not e.server_starts
    then (server_failed, (stop set).ports)
    else (opened (record { replica_set = set; closed = false }), set.ports)

-- `close`: whether it ends without `CandidateLaunchFailed`
unfoldable pub close : Evaluation → LaunchedSession → Bool × LaunchedSession
close e session =
    if session.closed
    then (true, session)
    else (e.all_gone, record { replica_set = stop session.replica_set; closed = true })

abbrev pub benchmarked : Evaluation → LaunchedSession → LaunchedSession
benchmarked e session = record session {
  replica_set = record session.replica_set { router = e.meanwhile (session.replica_set).router };
}

-- a candidate's evaluation, and the tuner's `_close_session`: false where it ends the tuning
abbrev pub closed_after : Evaluation → OpenResult × PortAllocator → Bool × PortAllocator
closed_after e (opened session, ports) =
    let (ended, after) = close e (benchmarked e session) in (ended, after.replica_set.ports)
closed_after e (launch_failed, ports) = (true, ports)
closed_after e (unavailable, ports) = (false, ports)
closed_after e (server_failed, ports) = (false, ports)

abbrev pub evaluate : Evaluation → PortAllocator → Bool × PortAllocator
evaluate e ports = closed_after e (open_session e ports)

abbrev pub next_evaluation :
    (PortAllocator → Bool × PortAllocator) → Bool × PortAllocator → Bool × PortAllocator
next_evaluation rest (true, ports) = rest ports
next_evaluation rest (false, ports) = (false, ports)

abbrev pub evaluate_all : List Evaluation → PortAllocator → Bool × PortAllocator
evaluate_all [] ports = (true, ports)
evaluate_all (e ∷ es) ports = next_evaluation (evaluate_all es) (evaluate e ports)
