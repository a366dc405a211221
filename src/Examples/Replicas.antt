-- ===== src/Examples/Replicas.antt =====
-- runtime/replicas.py, runtime/supervisor.py and benchmark/evaluator.py: a restart, and a set of which one replica fails.
use open_baseten_inference.Prelude.{
  false, Bool, ◌≡◌, refl, none, some, true, List, [], ◌∷◌, arith, mem_nat,
}
use open_baseten_inference.Schemas.Runtime.{fresh_replica}
use open_baseten_inference.Runtime.Policies.{least_inflight}
use open_baseten_inference.Runtime.Router.{
  ReplicaRouter, new, add_replica, remove_replica, find_replica,
}
use open_baseten_inference.Runtime.Ports.{PortAllocator, CanBind, IsValid}
use open_baseten_inference.Runtime.Launch.{
  ReplicaSet, LaunchEvent, begin, launched, became_ready, never_ready, collected,
}
use open_baseten_inference.Runtime.Supervisor.{Deployment, Script, run}
use open_baseten_inference.Runtime.Supervisor.Cleanup.{IsCleanedUp, run-IsCleanedUp}
use open_baseten_inference.Benchmark.Evaluator.{Evaluation, evaluate_all}
use open_baseten_inference.Benchmark.Evaluator.Returned.{evaluate_all-SamePorts}
use open_baseten_inference.Runtime.Replicas.{ready, Listing, next_restarts, restart_replica}
use open_baseten_inference.Runtime.Replicas.Restart.{Ended, LeavesAlone, restart_replica-Ended}

abbrev before : ReplicaRouter
unfolding add_replica new
before =
    (add_replica "r0" "http://a" (0 ∷ []) (some 11)
      (new (least_inflight 0) none 4 (λ ref. fresh_replica "" "" [] none))).1

abbrev nobody : ReplicaRouter → ReplicaRouter
nobody s = s

nobody-LeavesAlone : LeavesAlone "r0" nobody
nobody-LeavesAlone = record { same_name = λ s. refl; same_restarts = λ s ref h. refl }

abbrev listing : Listing
listing = record { old = 40; fresh = 41; replicas = 39 ∷ 40 ∷ [] }

restart_replica-Ended_example :
    let removed = nobody (remove_replica "r0" before) in
    Ended "r0" removed.next
      (next_restarts (find_replica "r0" before) before)
      listing
      removed
      (ready 12)
      (restart_replica "r0" "http://a" (0 ∷ []) listing (ready 12) nobody nobody before)
restart_replica-Ended_example =
    restart_replica-Ended "r0" "http://a" (0 ∷ []) listing (ready 12) nobody nobody before
      nobody-LeavesAlone

abbrev some_ports : PortAllocator
some_ports = record { start = 30; end = 34; host = "127.0.0.1"; reserved = 31 ∷ []; cursor = 30 }

some_ports-IsValid : IsValid some_ports
some_ports-IsValid = ground arith

abbrev replica_set : ReplicaSet
replica_set = record { ports = some_ports; router = before; replicas = []; allocated_ports = [] }

abbrev all_free : CanBind
all_free host port = true

-- two tasks at once: the second takes its port before the first is ready, and fails
abbrev launches : List LaunchEvent
launches =
    begin all_free
    ∷ launched "r1" "http://b" (1 ∷ []) 21
    ∷ begin all_free
    ∷ launched "r2" "http://c" (2 ∷ []) 22
    ∷ became_ready "r1"
    ∷ never_ready "r2" "no answer"
    ∷ collected "r1"
    ∷ []

abbrev busy : ReplicaRouter → ReplicaRouter
busy s = remove_replica "r1" s

-- one launch fails, and the server would not have started either
abbrev failing : Script
failing = record {
  launches = launches;
  all_launched = false;
  server_starts = false;
  state_written = true;
  meanwhile = busy;
  stop_requested = true;
  health_stops = true;
  server_stops = true;
  launcher_shut_down = true;
  state_cleared = true;
}

abbrev deployment : Deployment
deployment = record {
  replica_set = replica_set;
  serving = false;
  checking = false;
  state_file = false;
  ready = false;
}

run-IsCleanedUp_example : IsCleanedUp failing deployment (run failing deployment)
run-IsCleanedUp_example = run-IsCleanedUp failing deployment some_ports-IsValid refl refl

-- a candidate that is served and stopped, and one whose launch fails
abbrev one_evaluation : Bool → Evaluation
one_evaluation ok = record {
  engine_available = true;
  budget = none;
  hardware = record { gpus = []; topology = record { edges = []; available = false }; nodes = [] };
  gpu_ids = [];
  launches = launches;
  all_launched = ok;
  server_starts = true;
  router = before;
  meanwhile = busy;
  all_gone = true;
}

evaluate_all-SamePorts_example :
    mem_nat 31
      (evaluate_all (one_evaluation true ∷ one_evaluation false ∷ []) some_ports).1.reserved
    ≡ mem_nat 31 some_ports.reserved
evaluate_all-SamePorts_example =
    evaluate_all-SamePorts (one_evaluation true ∷ one_evaluation false ∷ []) some_ports 31
      some_ports-IsValid
