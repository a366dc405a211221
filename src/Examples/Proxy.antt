-- ===== src/Examples/Proxy.antt =====
-- api/proxy.py in front of two replicas, the first of which answers 503.
use open_baseten_inference.Prelude.{ℕ, ◌≡◌, refl, none, some, [], ◌∷◌, arith, str_eq, if◌then◌else◌}
use open_baseten_inference.Schemas.Runtime.{ReplicaStatus, fresh_replica}
use open_baseten_inference.Runtime.Policies.{least_inflight, select_policy, minimum}
use open_baseten_inference.Runtime.Semaphore.{locked}
use open_baseten_inference.Runtime.Router.{
  RouteLease, new, add_replica, set_status, acquire_begin, acquire_finish, reroute, candidates,
}
use open_baseten_inference.Runtime.Router.World.{World, add, status, step, run}
use open_baseten_inference.Runtime.Router.Ledger.{Books}
use open_baseten_inference.Runtime.Router.Books.{start, run-Books}
use open_baseten_inference.Api.Proxy.{
  Network, response, complete, Wait, Metrics, proxy_generation, send_with_retry, stream, acquire,
}
use open_baseten_inference.Api.Proxy.Accounting.{OtherTasks, proxy_generation-Books}
use open_baseten_inference.Api.Proxy.Retry.{
  Delivered, send_with_retry-Delivered, Counted, proxy_generation-Counted,
}

abbrev network : Network
network = record {
  answer = λ left url. if str_eq url "http://a" then response 503 else response 200;
  describe = λ status. "HTTP 503";
  streaming = complete;
}

abbrev wait : Wait
wait = record { place = λ w. 0; leaves = λ w. none }

-- nobody else runs
abbrev alone : ℕ → World → World
alone n w = w

alone-OtherTasks : (n : ℕ) → OtherTasks (alone n)
alone-OtherTasks n = record { without = λ w b. b; with_ours = λ lease w b. b }

abbrev metrics : Metrics
metrics = record {
  requests_inflight = 0;
  requests_total = [];
  request_errors_total = [];
  observed = 0;
}

abbrev fresh : World
fresh = start (least_inflight 0) (some 1) 4 (λ ref. fresh_replica "" "" [] none)

abbrev world : World
world = run fresh (
    add "r0" "http://a" (0 ∷ []) none
    ∷ add "r1" "http://b" (1 ∷ []) none
    ∷ status "r0" ReplicaStatus.healthy none
    ∷ status "r1" ReplicaStatus.healthy none
    ∷ [])

world-Books : Books world
unfolding new
world-Books = run-Books fresh _ (record {
  leases_valid = record {};
  replicas_valid = record {};
  counted = λ ref h. omega arith;
})

-- the second replica serves the request
retry_serves : (proxy_generation network wait alone world metrics).0 ≡ stream 200 "r1"
unfolding proxy_generation acquire send_with_retry run step new add_replica set_status acquire_begin
    acquire_finish locked candidates select_policy minimum reroute
retry_serves = refl

proxy_generation-Books_example : Books (proxy_generation network wait alone world metrics).1.0
proxy_generation-Books_example =
    proxy_generation-Books network wait alone world metrics alone-OtherTasks world-Books

abbrev first_lease : RouteLease
first_lease = record { replica = 0; excluded = "r0" ∷ [] }

send_with_retry-Delivered_example :
    Delivered network alone first_lease world (send_with_retry network alone 1 first_lease world)
send_with_retry-Delivered_example = send_with_retry-Delivered network alone first_lease world

proxy_generation-Counted_example :
    let o = proxy_generation network wait alone world metrics in Counted metrics (o.0, o.1.1)
proxy_generation-Counted_example = proxy_generation-Counted network wait alone world metrics
