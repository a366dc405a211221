-- ===== src/Schemas/Runtime.antt =====
-- src/servepilot/schemas/runtime.py: the routing state of one replica.
use open_baseten_inference.Prelude.{ℕ, String, Bool, true, false, Option, none, List}

pub data ReplicaStatus : Type 0 where
  starting healthy unhealthy stopped : ReplicaStatus

pub record ReplicaState : Type 0 where
  pub id : String
  pub base_url : String
  pub gpu_ids : List ℕ
  pub status : ReplicaStatus
  pub inflight_requests : ℕ
  pub total_requests : ℕ
  pub failures : ℕ
  pub consecutive_health_failures : ℕ
  pub restarts : ℕ
  pub pid : Option ℕ
  pub last_error : Option String

abbrev pub is_healthy_status : ReplicaStatus → Bool
is_healthy_status ReplicaStatus.healthy = true
is_healthy_status _ = false

-- the property `healthy`
abbrev pub is_healthy : ReplicaState → Bool
is_healthy r = is_healthy_status r.status

-- `ReplicaState(id=…, base_url=…, gpu_ids=…, pid=…)`, with the defaults of the other fields
abbrev pub fresh_replica : String → String → List ℕ → Option ℕ → ReplicaState
fresh_replica id base_url gpu_ids pid = record {
  id = id;
  base_url = base_url;
  gpu_ids = gpu_ids;
  status = ReplicaStatus.starting;
  inflight_requests = 0;
  total_requests = 0;
  failures = 0;
  consecutive_health_failures = 0;
  restarts = 0;
  pid = pid;
  last_error = none;
}
