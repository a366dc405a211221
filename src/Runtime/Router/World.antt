-- ===== src/Runtime/Router/World.antt =====
-- The router of src/servepilot/runtime/router.py among its tasks: one event loop runs the requests,
-- the health checker and the replica set, and every event below runs without an `await` inside.
-- A world is the router and the leases that requests hold; a suspended `acquire` is a waiter of the
-- semaphore. An event that is not enabled (no such waiter or lease) changes nothing.
-- `set_max_concurrency`, which no deployment calls, is studied apart (Limit).
use open_baseten_inference.Prelude.{
  ℕ, String, Bool, true, Option, none, some, List, [], ◌∷◌, ◌++◌, get_elem?, modify, remove_at,
}
use open_baseten_inference.Schemas.Runtime.{ReplicaStatus}
use open_baseten_inference.Runtime.Semaphore.{Semaphore}
use open_baseten_inference.Runtime.Router.{
  ReplicaRouter, RouteLease, Result, ok, err, Begin, rejected, suspended, passed, add_replica,
  remove_replica, set_status, acquire_begin, acquire_finish, acquire_resume, acquire_cancel,
  reroute, release,
}

pub record World : Type 0 where
  pub router : ReplicaRouter
  pub leases : List RouteLease

pub data Event : Type 0 where
  add : String → String → List ℕ → Option ℕ → Event
  remove : String → Event
  status : String → ReplicaStatus → Option String → Event
  arrive : Event
  resume : ℕ → Event
  cancel : ℕ → Event
  retry : ℕ → Option String → Event
  finish : ℕ → Bool → Option String → Event

-- the caller of `acquire` keeps the lease, if it gets one
abbrev pub hold : List RouteLease → Result RouteLease × ReplicaRouter → World
hold ls (ok l, s) = record { router = s; leases = ls ++ l ∷ [] }
hold ls (err e, s) = record { router = s; leases = ls }

abbrev pub begun : List RouteLease → Begin × ReplicaRouter → World
begun ls (rejected n, s) = record { router = s; leases = ls }
begun ls (suspended, s) = record { router = s; leases = ls }
begun ls (passed, s) = hold ls (acquire_finish s)

abbrev pub resumed : ℕ → World → Option Bool → Semaphore → World
resumed i w (some true) sem = hold w.leases (acquire_resume i sem w.router)
resumed i w _ sem = w

abbrev pub cancelled : ℕ → World → Option Bool → Semaphore → World
cancelled i w none sem = w
cancelled i w (some done) sem = record w { router = acquire_cancel i done sem w.router }

-- the semaphore's queue, if there is a semaphore
abbrev pub with_semaphore : World → Option Semaphore → (Semaphore → World) → World
with_semaphore w none f = w
with_semaphore w (some sem) f = f sem

abbrev pub retried : ℕ → World → Option String → Option RouteLease → World
retried i w error none = w
retried i w error (some lease) =
    let (r, lease', s) = reroute lease error w.router in
    record { router = s; leases = modify w.leases i (λ _. lease') }

abbrev pub finished : ℕ → World → Bool → Option String → Option RouteLease → World
finished i w failed error none = w
finished i w failed error (some lease) = record {
  router = release lease failed error w.router;
  leases = remove_at w.leases i;
}

unfoldable pub step : World → Event → World
step w (add id base_url gpu_ids pid) = record w {
  router = (add_replica id base_url gpu_ids pid w.router).1;
}
step w (remove id) = record w { router = remove_replica id w.router }
step w (status id st error) = record w { router = set_status id st error w.router }
step w arrive = begun w.leases (acquire_begin w.router)
step w (resume i) =
    with_semaphore w w.router.semaphore (λ sem. resumed i w (get_elem? sem.waiters i) sem)
step w (cancel i) =
    with_semaphore w w.router.semaphore (λ sem. cancelled i w (get_elem? sem.waiters i) sem)
step w (retry i error) = retried i w error (get_elem? w.leases i)
step w (finish i failed error) = finished i w failed error (get_elem? w.leases i)

unfoldable pub run : World → List Event → World
run w [] = w
run w (e ∷ es) = run (step w e) es
