-- ===== src/Examples/Router.antt =====
-- runtime/router.py and runtime/policies.py on two replicas.
use open_baseten_inference.Prelude.{
  ℕ, ◌+◌, ◌*◌, ◌≤◌, ◌<◌, ◌≡◌, refl, true, false, none, some, List, [], ◌∷◌, arith, get_elem?,
}
use open_baseten_inference.Schemas.Runtime.{ReplicaState, ReplicaStatus, fresh_replica}
use open_baseten_inference.Runtime.Policies.{
  Candidate, least_inflight, round_robin, select_policy, minimum,
}
use open_baseten_inference.Runtime.Policies.Choice.{
  Least, after, select_policy-Least, round_robin_cycles,
}
use open_baseten_inference.Runtime.Semaphore
use open_baseten_inference.Runtime.Semaphore.{Semaphore, semaphore, locked}
use open_baseten_inference.Runtime.Semaphore.Permits.{granted}
use open_baseten_inference.Runtime.Router.{
  RouteLease, ok, new, add_replica, set_status, select, reroute, release, acquire_begin,
  acquire_finish, acquire_resume, candidates, set_max_concurrency,
}
use open_baseten_inference.Runtime.Router.Choice.{IsEligible, select-IsEligible}
use open_baseten_inference.Runtime.Router.World.{
  World, Event, add, status, arrive, resume, finish, step, run,
}
use open_baseten_inference.Runtime.Router.Ledger.{held}
use open_baseten_inference.Runtime.Router.Books.{start, run-inflight}
use open_baseten_inference.Runtime.Router.Limit.{
  HasLimit, run-HasLimit, run-inflight_capped, finish_wakes, release_all,
  set_max_concurrency_overshoots, Rerouted, reroute-Rerouted,
}

abbrev blank : ℕ → ReplicaState
blank ref = fresh_replica "" "" [] none

-- two healthy replicas, one slot: a request runs, one waits, the first ends and the second resumes
abbrev script : List Event
script =
    add "r0" "http://a" (0 ∷ []) none
    ∷ add "r1" "http://b" (1 ∷ []) none
    ∷ status "r0" ReplicaStatus.healthy none
    ∷ status "r1" ReplicaStatus.healthy none
    ∷ arrive
    ∷ arrive
    ∷ []

abbrev one_slot : World
one_slot = start (least_inflight 0) (some 1) 4 blank

script_runs :
    let w = run one_slot script in
    (w.router.next ≡ 2)
    × (held 0 w.leases ≡ 1)
    × (w.router.waiting ≡ 1)
    × (get_elem? w.leases 0 ≡ some (record { replica = 0; excluded = "r0" ∷ [] }))
unfolding run step new add_replica set_status acquire_begin acquire_finish locked candidates
    select_policy minimum
script_runs = (refl, refl, refl, refl)

-- the rest of the life of the two requests
script_ends :
    let w = run (run one_slot script) (finish 0 false none ∷ resume 0 ∷ finish 0 true none ∷ []) in
    (w.router.semaphore ≡ some (semaphore 1))
    × (w.router.waiting ≡ 0)
    × (w.router.total_errors ≡ 1)
    × ((w.router.heap 0).inflight_requests ≡ 0)
    × (w.router.total_requests ≡ 2)
unfolding run step new add_replica set_status acquire_begin acquire_finish acquire_resume release
    locked candidates select_policy minimum Semaphore.release Semaphore.leave Semaphore.wake_while
script_ends = (refl, refl, refl, refl, refl)

run-inflight_example :
    ((run one_slot script).router.heap 0).inflight_requests ≡ held 0 (run one_slot script).leases
run-inflight_example =
    run-inflight (least_inflight 0) (some 1) 4 blank script 0 (omega (arith, script_runs.0))

run-HasLimit_example : HasLimit 1 4 (run one_slot script)
run-HasLimit_example = run-HasLimit (least_inflight 0) 0 4 blank script

run-inflight_capped_example : ((run one_slot script).router.heap 0).inflight_requests ≤ 1
run-inflight_capped_example =
    run-inflight_capped (least_inflight 0) 0 4 blank script 0 (omega (arith, script_runs.0))

finish_wakes_example :
    (sem : Semaphore) × ((step (run one_slot script) (finish 0 false none)).router.semaphore
      ≡ some sem)
    × (0 < granted sem.waiters)
finish_wakes_example =
    finish_wakes 1 4 0 (record { replica = 0; excluded = "r0" ∷ [] }) false none
      (run one_slot script) (run-HasLimit (least_inflight 0) 0 4 blank script) script_runs.3
      (omega (arith, script_runs.2))

abbrev first_lease : RouteLease
first_lease = record { replica = 0; excluded = "r0" ∷ [] }

set_max_concurrency_overshoots_example :
    (release_all
      ((first_lease, false, none) ∷ (first_lease, true, some "reset") ∷ [])
      (set_max_concurrency (some 2) (run one_slot script).router)).semaphore
    ≡ some (semaphore (2 + 2))
set_max_concurrency_overshoots_example =
    set_max_concurrency_overshoots (run one_slot script).router
      ((first_lease, false, none) ∷ (first_lease, true, some "reset") ∷ []) 1

reroute-Rerouted_example :
    Rerouted first_lease
      (run one_slot script).router
      (reroute first_lease (some "HTTP 500") (run one_slot script).router)
reroute-Rerouted_example =
    reroute-Rerouted first_lease (some "HTTP 500") (run one_slot script).router

script_selects : (select ("r0" ∷ []) (run one_slot script).router).0 ≡ ok 1
unfolding run step new add_replica set_status acquire_begin acquire_finish locked candidates
    select_policy minimum
script_selects = refl

select-IsEligible_example : IsEligible ("r0" ∷ []) (run one_slot script).router 1
select-IsEligible_example =
    select-IsEligible ("r0" ∷ []) (run one_slot script).router 1 script_selects

abbrev busy : Candidate
busy = (0, record (fresh_replica "r0" "http://a" [] none) { inflight_requests = 3 })

abbrev idle : Candidate
idle = (1, fresh_replica "r1" "http://b" [] none)

select_policy-Least_example :
    (d : Candidate) × ((select_policy (least_inflight 7) (busy ∷ idle ∷ [])).0 ≡ some d)
    × Least (busy ∷ idle ∷ []) d
select_policy-Least_example = select_policy-Least 7 busy (idle ∷ [])

round_robin_cycles_example :
    (select_policy (after (2 * 2 + 1) (round_robin 0) (busy ∷ idle ∷ [])) (busy ∷ idle ∷ [])).0
    ≡ some idle
round_robin_cycles_example = round_robin_cycles 2 1 busy (idle ∷ []) (omega arith)
