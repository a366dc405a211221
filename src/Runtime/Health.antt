-- ===== src/Runtime/Health.antt =====
-- src/servepilot/runtime/health.py: `HealthChecker`. Times are clock ticks, as naturals. What the
-- checker waits for enters as arguments: the answers of the probes, the clock at each death, and
-- what other tasks do to the router while the probes run. A log line is a value of `HealthEvent`;
-- starting and stopping the loop's task is not modelled.
pub mod Budget
pub mod Probes
use open_baseten_inference.Prelude.{
  ℕ, zero, suc, ◌+◌, ◌-◌, ◌*◌, ◌^◌, String, Bool, true, false, not, ◌&&◌, Option, none, some, List,
  [], ◌∷◌, ◌++◌, ltb, leb, length, drop, mem_nat, discard, if◌then◌else◌, ◌==◌,
}
use open_baseten_inference.Schemas.Runtime.{ReplicaState, ReplicaStatus, is_healthy_status}
use open_baseten_inference.Runtime.Router.{ReplicaRouter, find_replica, set_status, update}

-- the part of a replica that the checker reads: `running` is whether its process, if any, is alive,
-- and `exit_reason` the text `process exited with code ...`
pub record Replica : Type 0 where
  pub index : ℕ
  pub id : String
  pub running : Bool
  pub exit_reason : String

pub data HealthEvent : Type 0 where
  died : String → String → HealthEvent
  gave_up : String → HealthEvent
  restarting : String → ℕ → ℕ → HealthEvent
  recovered : String → HealthEvent
  marked_unhealthy : String → ℕ → HealthEvent

pub record HealthChecker : Type 0 where
  pub unhealthy_after : ℕ
  pub max_restarts : ℕ
  pub window : ℕ
  pub backoff : ℕ
  pub restart_enabled : Bool
  pub restart_times : ℕ → List ℕ
  pub restarting_set : List ℕ
  pub events : List HealthEvent

-- `del self.events[:-200]`
abbrev pub last_200 : List HealthEvent → List HealthEvent
last_200 es = drop (length es - 200) es

unfoldable pub record_event : HealthEvent → HealthChecker → HealthChecker
record_event e c = record c { events = last_200 (c.events ++ e ∷ []) }

-- `while times and now - times[0] > self._window: times.popleft()`
unfoldable pub forget_old : ℕ → ℕ → List ℕ → List ℕ
forget_old window now [] = []
forget_old window now (t ∷ times) =
    let rest = forget_old window now times in if ltb window (now - t) then rest else t ∷ times

-- `self._restart_times[index] = times`
abbrev pub set_times : ℕ → List ℕ → (ℕ → List ℕ) → ℕ → List ℕ
set_times index times table i = if i == index then times else table i

-- `self._backoff * (2 ** (attempt - 1))`
unfoldable pub restart_delay : ℕ → ℕ → ℕ
restart_delay backoff attempt = backoff * 2 ^ (attempt - 1)

-- What a death comes to: the attempt number of the restart task that it schedules, if any.
abbrev pub Outcome : Type 0
Outcome = Option ℕ × HealthChecker × ReplicaRouter

-- the budget is spent
abbrev give_up : Replica → List ℕ → HealthChecker → ReplicaRouter → Outcome
give_up r times c s = (
  none,
  record_event (gave_up r.id)
      (record c { restart_times = set_times r.index times c.restart_times }),
  set_status r.id ReplicaStatus.stopped (some "restart budget exhausted") s,
)

-- one more restart
abbrev schedule : ℕ → Replica → List ℕ → HealthChecker → ReplicaRouter → Outcome
schedule now r times c s =
    let times' = times ++ now ∷ [] in
    (
      some (length times'),
      record c {
        restart_times = set_times r.index times' c.restart_times;
        restarting_set = r.index ∷ discard r.index c.restarting_set;
      },
      s,
    )

abbrev budget : ℕ → Replica → HealthChecker → ReplicaRouter → Outcome
budget now r c s =
    let times = forget_old c.window now (c.restart_times r.index) in
    if leb c.max_restarts (length times) then give_up r times c s else schedule now r times c s

-- `_handle_dead`
unfoldable pub handle_dead : ℕ → Replica → String → HealthChecker → ReplicaRouter → Outcome
unfolding record_event
handle_dead now r reason c s =
    let s' = set_status r.id ReplicaStatus.unhealthy (some reason) s in
    let c' = record_event (died r.id reason) c in
    if c.restart_enabled
    then budget now r c' s'
    else (none, c', set_status r.id ReplicaStatus.stopped (some reason) s')

-- the start of `_restart`: the log line with the delay
unfoldable pub restart_started : Replica → ℕ → HealthChecker → HealthChecker
unfolding record_event restart_delay
restart_started r attempt c =
    record_event (restarting r.id attempt (restart_delay c.backoff attempt)) c

-- the `finally` of `_restart`
unfoldable pub restart_done : ℕ → HealthChecker → HealthChecker
restart_done index c = record c { restarting_set = discard index c.restarting_set }

-- what a probe's answer does to the replica's state
unfoldable pub apply_probe : ℕ → Bool → ReplicaState → ReplicaState
apply_probe unhealthy_after true r = record r {
  status = ReplicaStatus.healthy;
  consecutive_health_failures = 0;
}
apply_probe unhealthy_after false r =
    let failures = r.consecutive_health_failures + 1 in
    if leb unhealthy_after failures && is_healthy_status r.status
    then record r {
      status = ReplicaStatus.unhealthy;
      consecutive_health_failures = failures;
      last_error = some "health probe failing";
    }
    else record r { consecutive_health_failures = failures }

abbrev is_unhealthy : ReplicaStatus → Bool
is_unhealthy ReplicaStatus.unhealthy = true
is_unhealthy _ = false

-- the log lines of a probe's answer
abbrev probe_event : String → Bool → ReplicaState → ReplicaState → HealthChecker → HealthChecker
probe_event id true r r' c = if is_unhealthy r.status then record_event (recovered id) c else c
probe_event id false r r' c =
    if is_healthy_status r.status && is_unhealthy r'.status
    then record_event (marked_unhealthy id r'.consecutive_health_failures) c
    else c

-- the second loop of `check_once`, over the replicas that were probed
unfoldable pub note_probes :
    (String → Bool) → List Replica → HealthChecker → ReplicaRouter → HealthChecker × ReplicaRouter
unfolding record_event apply_probe
note_probes probe [] c s = (c, s)
note_probes probe (r ∷ rs) c s = elim (find_replica r.id s) [
  | none ↦ note_probes probe rs c s
  | some ref ↦
      note_probes probe rs
        (probe_event r.id (probe r.id) (s.heap ref)
          (apply_probe c.unhealthy_after (probe r.id) (s.heap ref)) c)
        (record s { heap = update ref (apply_probe c.unhealthy_after (probe r.id)) s.heap })
]

-- whether the first loop looks at a replica: it is not restarting, and known and not stopped
abbrev pub is_stopped : ReplicaStatus → Bool
is_stopped ReplicaStatus.stopped = true
is_stopped _ = false

abbrev is_watched : Replica → HealthChecker → ReplicaRouter → Bool
is_watched r c s = elim (find_replica r.id s) [
  | none ↦ false
  | some ref ↦ not (mem_nat r.index c.restarting_set) && not (is_stopped (s.heap ref).status)
]

-- the first loop of `check_once`: the replicas to probe, and what the deaths did
unfoldable pub sweep :
    (String → ℕ)
    → List Replica
    → HealthChecker
    → ReplicaRouter
    → List Replica × HealthChecker × ReplicaRouter
unfolding handle_dead
sweep clock [] c s = ([], c, s)
sweep clock (r ∷ rs) c s = elim (is_watched r c s) [
  | false ↦ sweep clock rs c s
  | true ↦ elim r.running [
    | true ↦ let (live, c', s') = sweep clock rs c s in (r ∷ live, c', s')
    | false ↦
        let (attempt, c', s') = handle_dead (clock r.id) r r.exit_reason c s in sweep clock rs c' s'
  ]
]

-- `check_once`; `during` is what other tasks do to the router while the probes run
unfoldable pub check_once :
    (String → ℕ)
    → (String → Bool)
    → (ReplicaRouter → ReplicaRouter)
    → List Replica
    → HealthChecker
    → ReplicaRouter
    → HealthChecker × ReplicaRouter
unfolding sweep note_probes
check_once clock probe during replicas c s =
    let (live, c', s') = sweep clock replicas c s in note_probes probe live c' (during s')
