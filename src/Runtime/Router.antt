-- ===== src/Runtime/Router.antt =====
-- src/servepilot/runtime/router.py: `ReplicaRouter`. Replica objects live on a heap, since a lease
-- keeps its object after the router's dict has dropped or replaced it; a reference is the number of
-- the object. A suspended `acquire` is a waiter of the semaphore. `acquired_at` is a timestamp that
-- the router never reads, and is left out, as is the request's metadata.
pub mod Choice
pub mod World
pub mod Ledger
pub mod Books
pub mod Permits
pub mod Slots
pub mod Config
pub mod Limit
use open_baseten_inference.Prelude.{
  ℕ, zero, suc, ◌+◌, ◌-◌, String, Bool, true, false, not, ◌&&◌, Option, none, some, List, [], ◌∷◌,
  ◌++◌, ◌==◌, leb, str_eq, keep, length, sum_by, if◌then◌else◌,
}
use open_baseten_inference.Prelude.Dict.{lookup, assign, discard_key}
use open_baseten_inference.Schemas.Runtime.{ReplicaState, ReplicaStatus, is_healthy, fresh_replica}
use open_baseten_inference.Runtime.Policies.{Candidate, RoutingPolicy, select_policy}
use open_baseten_inference.Runtime.Semaphore
use open_baseten_inference.Runtime.Semaphore.{Semaphore, semaphore, locked}

-- the exceptions of the module, and the `ValueError` of a policy
pub data RouteError : Type 0 where
  no_healthy_replica : RouteError
  overloaded : ℕ → RouteError
  value_error : RouteError

pub data Result {ℓ} (A : Type ℓ) : Type ℓ where
  ok : A → Result A
  err : RouteError → Result A

pub record RouteLease : Type 0 where
  pub replica : ℕ
  pub excluded : List String

pub record ReplicaRouter : Type 0 where
  pub policy : RoutingPolicy
  pub heap : ℕ → ReplicaState
  pub next : ℕ
  pub replicas : List (String × ℕ)
  pub max_concurrency : Option ℕ
  pub max_queue_depth : ℕ
  pub semaphore : Option Semaphore
  pub waiting : ℕ
  pub total_requests : ℕ
  pub total_errors : ℕ
  pub rejected_overload : ℕ

-- `asyncio.Semaphore(value) if value else None`: 0 and `None` both mean no limit
abbrev pub make_semaphore : Option ℕ → Option Semaphore
make_semaphore none = none
make_semaphore (some value) = if value == 0 then none else some (semaphore value)

-- `__init__`; the objects that the heap starts with are never read
unfoldable pub new : RoutingPolicy → Option ℕ → ℕ → (ℕ → ReplicaState) → ReplicaRouter
new policy max_concurrency max_queue_depth heap = record {
  policy = policy;
  heap = heap;
  next = 0;
  replicas = [];
  max_concurrency = max_concurrency;
  max_queue_depth = max_queue_depth;
  semaphore = make_semaphore max_concurrency;
  waiting = 0;
  total_requests = 0;
  total_errors = 0;
  rejected_overload = 0;
}

-- an assignment to a field of the object behind `ref`
abbrev pub update : ℕ → (ReplicaState → ReplicaState) → (ℕ → ReplicaState) → ℕ → ReplicaState
update ref f heap r = if r == ref then f (heap r) else heap r

unfoldable pub add_replica : String → String → List ℕ → Option ℕ → ReplicaRouter → ℕ × ReplicaRouter
add_replica id base_url gpu_ids pid s =
    let ref = s.next in
    (
      ref,
      record s {
        heap = update ref (λ _. fresh_replica id base_url gpu_ids pid) s.heap;
        next = s.next + 1;
        replicas = assign s.replicas id ref;
      },
    )

unfoldable pub remove_replica : String → ReplicaRouter → ReplicaRouter
remove_replica id s = record s { replicas = discard_key s.replicas id }

-- `if error is not None: r.last_error = error`
abbrev pub note_error : Option String → ReplicaState → ReplicaState
note_error none r = r
note_error (some error) r = record r { last_error = some error }

unfoldable pub set_status : String → ReplicaStatus → Option String → ReplicaRouter → ReplicaRouter
set_status id status error s = elim (lookup s.replicas id) [
  | none ↦ s
  | some ref ↦ record s {
    heap = update ref (λ r. note_error error (record r { status = status })) s.heap;
  }
]

-- `replica(replica_id)`, as a reference
abbrev pub find_replica : String → ReplicaRouter → Option ℕ
find_replica id s = lookup s.replicas id

-- `list(self._replicas.values())`, each object with its reference
abbrev pub objects : (ℕ → ReplicaState) → List (String × ℕ) → List Candidate
objects heap [] = []
objects heap ((id, ref) ∷ m) = (ref, heap ref) ∷ objects heap m

unfoldable pub healthy_replicas : ReplicaRouter → List Candidate
healthy_replicas s = keep (λ c. is_healthy c.1) (objects s.heap s.replicas)

-- `id in excluded`
abbrev pub mem_str : String → List String → Bool
mem_str id [] = false
mem_str id (x ∷ xs) = if str_eq x id then true else mem_str id xs

unfoldable pub candidates : List String → ReplicaRouter → List Candidate
unfolding healthy_replicas
candidates excluded s = keep (λ c. not (mem_str (c.1).id excluded)) (healthy_replicas s)

-- An empty or missing `excluded` excludes nothing.
abbrev chosen : Option Candidate → Result ℕ
chosen none = err value_error
chosen (some c) = ok c.0

abbrev pick : RoutingPolicy → List Candidate → Result ℕ × RoutingPolicy
pick p [] = (err no_healthy_replica, p)
pick p (c ∷ cs) = let (d, p') = select_policy p (c ∷ cs) in (chosen d, p')

unfoldable pub select : List String → ReplicaRouter → Result ℕ × ReplicaRouter
select excluded s =
    let (r, p) = pick s.policy (candidates excluded s) in (r, record s { policy = p })

abbrev release_semaphore : ReplicaRouter → ReplicaRouter
release_semaphore s = elim s.semaphore [
  | none ↦ s
  | some sem ↦ record s { semaphore = some (Semaphore.release sem) }
]

-- one more request on the object
abbrev pub charge : ReplicaState → ReplicaState
charge r = record r {
  inflight_requests = r.inflight_requests + 1;
  total_requests = r.total_requests + 1;
}

-- `max(0, inflight - 1)`
abbrev pub discharge : ReplicaState → ReplicaState
discharge r = record r { inflight_requests = r.inflight_requests - 1 }

abbrev pub add_failure : Option String → ReplicaState → ReplicaState
add_failure error r = note_error error (record r { failures = r.failures + 1 })

-- What the first part of `acquire` comes to: an `OverloadedError`, a wait for the semaphore, or a
-- permit.
pub data Begin : Type 0 where
  rejected : ℕ → Begin
  suspended : Begin
  passed : Begin

abbrev enter : Semaphore → ReplicaRouter → Begin × ReplicaRouter
enter sem s =
    if locked sem && leb s.max_queue_depth s.waiting
    then (rejected s.waiting, record s { rejected_overload = s.rejected_overload + 1 })
    else if locked sem
    then (
      suspended,
      record s {
        semaphore = some (record sem { waiters = sem.waiters ++ false ∷ [] });
        waiting = s.waiting + 1;
      },
    )
    else (passed, record s { semaphore = some (record sem { value = sem.value - 1 }) })

-- `acquire` up to its `await`
unfoldable pub acquire_begin : ReplicaRouter → Begin × ReplicaRouter
acquire_begin s = elim s.semaphore [ none ↦ (passed, s) | some sem ↦ enter sem s ]

abbrev grant : Result ℕ → ReplicaRouter → Result RouteLease × ReplicaRouter
grant (err e) s = (err e, release_semaphore s)
grant (ok ref) s = (
  ok (record { replica = ref; excluded = (s.heap ref).id ∷ [] }),
  record s { heap = update ref charge s.heap; total_requests = s.total_requests + 1 },
)

-- `acquire` from the permit on: it runs with no other task between
unfoldable pub acquire_finish : ReplicaRouter → Result RouteLease × ReplicaRouter
unfolding select
acquire_finish s = let (r, s') = select [] s in grant r s'

-- A waiter whose future is done runs again: it leaves the queue with its permit.
unfoldable pub acquire_resume : ℕ → Semaphore → ReplicaRouter → Result RouteLease × ReplicaRouter
unfolding acquire_finish
acquire_resume i sem s =
    acquire_finish (record s { semaphore = some (Semaphore.leave i sem); waiting = s.waiting - 1 })

-- A cancelled waiter leaves through the two `finally` blocks.
unfoldable pub acquire_cancel : ℕ → Bool → Semaphore → ReplicaRouter → ReplicaRouter
acquire_cancel i done sem s = record s {
  semaphore = some (Semaphore.abandon i done sem);
  waiting = s.waiting - 1;
}

abbrev move :
    RouteLease → Option String → Result ℕ → ReplicaRouter → Result ℕ × RouteLease × ReplicaRouter
move lease error (err e) s = (err e, lease, s)
move lease error (ok ref) s = (
  ok ref,
  record { replica = ref; excluded = (s.heap ref).id ∷ lease.excluded },
  record s {
    heap = update ref charge (update lease.replica (λ r. add_failure error (discharge r)) s.heap);
  },
)

unfoldable pub reroute :
    RouteLease → Option String → ReplicaRouter → Result ℕ × RouteLease × ReplicaRouter
unfolding select
reroute lease error s = let (r, s') = select lease.excluded s in move lease error r s'

-- `release`; the error is noted only for a failed request
unfoldable pub release : RouteLease → Bool → Option String → ReplicaRouter → ReplicaRouter
release lease failed error s = release_semaphore (record s {
  heap =
      update lease.replica (λ r. if failed then add_failure error (discharge r) else discharge r)
        s.heap;
  total_errors = if failed then s.total_errors + 1 else s.total_errors;
})

unfoldable pub set_max_concurrency : Option ℕ → ReplicaRouter → ReplicaRouter
set_max_concurrency value s = record s { max_concurrency = value; semaphore = make_semaphore value }

-- the property `inflight`: the sum over the replicas that the dict still holds
unfoldable pub inflight : ReplicaRouter → ℕ
inflight s = sum_by (λ c. (c.1).inflight_requests) (objects s.heap s.replicas)
