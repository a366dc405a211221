-- ===== src/Examples/Health.antt =====
-- runtime/health.py on one replica whose process keeps dying.
use open_baseten_inference.Prelude.{ℕ, ◌+◌, ◌≤◌, ◌≡◌, refl, true, false, none, some, [], ◌∷◌, arith}
use open_baseten_inference.Schemas.Runtime.{ReplicaState, ReplicaStatus, fresh_replica}
use open_baseten_inference.Runtime.Policies.{least_inflight}
use open_baseten_inference.Runtime.Router.{
  ReplicaRouter, new, add_replica, set_status, find_replica,
}
use open_baseten_inference.Runtime.Health.{
  Replica, HealthChecker, forget_old, handle_dead, apply_probe,
}
use open_baseten_inference.Runtime.Health.Budget.{count_in, restarts, restarts_within_budget}
use open_baseten_inference.Runtime.Health.Probes.{
  Handled, failed_probes, failed_probes-status, handle_dead-Handled,
}

abbrev replica : Replica
replica = record {
  index = 0;
  id = "r0";
  running = false;
  exit_reason = "process exited with code 1";
}

abbrev checker : HealthChecker
checker = record {
  unhealthy_after = 3;
  max_restarts = 2;
  window = 10;
  backoff = 5;
  restart_enabled = true;
  restart_times = λ i. [];
  restarting_set = [];
  events = [];
}

-- restarted at 1 and 5
abbrev worn : HealthChecker
worn = record checker { restart_times = λ i. 1 ∷ 5 ∷ [] }

abbrev blank : ℕ → ReplicaState
blank ref = fresh_replica "" "" [] none

abbrev router : ReplicaRouter
unfolding add_replica new
router = (add_replica "r0" "http://a" [] none (new (least_inflight 0) none 4 blank)).1

-- The death at 7 finds the budget spent by those at 1 and 5; the one at 12 does not.
restarts_run : restarts replica (1 ∷ 5 ∷ 7 ∷ 12 ∷ []) checker router ≡ 1 ∷ 5 ∷ 12 ∷ []
unfolding restarts handle_dead set_status add_replica new forget_old
restarts_run = refl

restarts_within_budget_example :
    count_in 1 (1 + 10) (restarts replica (1 ∷ 5 ∷ 7 ∷ 12 ∷ []) checker router) ≤ 2
restarts_within_budget_example =
    restarts_within_budget replica (1 ∷ 5 ∷ 7 ∷ 12 ∷ []) checker router 1 refl refl
      (omega arith, (omega arith, (omega arith, (omega arith, tt))))

router_knows : find_replica "r0" router ≡ some 0
unfolding add_replica new
router_knows = refl

handle_dead-Handled_example :
    Handled 12 replica 0 worn (handle_dead 12 replica "process exited with code 1" worn router)
handle_dead-Handled_example =
    handle_dead-Handled 12 replica "process exited with code 1" worn router 0 router_knows
      (omega arith, (omega arith, tt))

failed_probes-status_example :
    let r' = failed_probes 3 4 (record (blank 0) { status = ReplicaStatus.healthy }) in
    (r'.status ≡ ReplicaStatus.unhealthy)
    × (r'.consecutive_health_failures ≡ 4)
    × ((apply_probe 3 true r').status ≡ ReplicaStatus.healthy)
    × ((apply_probe 3 true r').consecutive_health_failures ≡ 0)
failed_probes-status_example =
    failed_probes-status 2 4 (record (blank 0) { status = ReplicaStatus.healthy }) refl refl
