-- ===== src/Runtime/Router/Slots.antt =====
-- runtime/router.py: the permits of the concurrency limit over the events of the tasks.
use open_baseten_inference.Prelude.{
  ℕ, suc, ◌≡◌, refl, Bool, Option, none, some, List, [], ◌∷◌, arith, String, leb, get_elem?, length,
  length-modify, length-remove_at, modify, remove_at, Option-cases, inl, inr,
}
use open_baseten_inference.Prelude.Dict.{lookup}
use open_baseten_inference.Schemas.Runtime.{ReplicaStatus}
use open_baseten_inference.Runtime.Semaphore.{Semaphore, locked}
use open_baseten_inference.Runtime.Router.{
  ReplicaRouter, RouteLease, Result, ok, err, select, acquire_begin, reroute, release, add_replica,
  remove_replica, set_status, move,
}
use open_baseten_inference.Runtime.Router.World.{
  World, Event, add, remove, status, arrive, resume, cancel, retry, finish, with_semaphore, retried,
  finished, step, run,
}
use open_baseten_inference.Runtime.Router.Permits.{
  Slots, SlotsOf, released, no_limit, acquire_finish-Slots, enter-Slots, resumed-Slots,
  cancelled-Slots,
}

-- The permits in the semaphore and in its queue, and the leases, are the limit; the counter of
-- waiting requests is the queue's length, and within its bound; no wake-up is lost.
retried-Slots :
    (i : ℕ) (w : World) (error : Option String) (o : Option RouteLease)
    → Slots w
    → Slots (retried i w error o)
unfolding reroute
retried-Slots i w error none h = h
retried-Slots i w error (some l) h =
    moved (select l.excluded w.router).0 (select l.excluded w.router).1 (unfold select in h)
  where
    moved :
        (r : Result ℕ) (t : ReplicaRouter)
        → SlotsOf t (length w.leases)
        → Slots (record {
          router = (move l error r t).2;
          leases = modify w.leases i (λ _. (move l error r t).1);
        })
    moved (err e) t h = rw length-modify h
    moved (ok ref) t h = rw length-modify h

finished-Slots :
    (i : ℕ) (failed : Bool) (error : Option String) (w : World) (o : Option RouteLease)
    → get_elem? w.leases i ≡ o
    → Slots w
    → Slots (finished i w failed error o)
unfolding release
finished-Slots i failed error w none at h = h
finished-Slots i failed error w (some l) at h =
    let shorter : suc (length (remove_at w.leases i)) ≡ length w.leases =
      omega (arith, length-remove_at w.leases i at) in
    let h' = rw (← shorter) at h in
    elim (Option-cases w.router.semaphore) [
      | inl n ↦
          rw (n, release)
            (no_limit w.router.max_concurrency w.router.waiting w.router.max_queue_depth
              (length w.leases) (length (remove_at w.leases i)) (rw n at h))
      | inr (sem, n) ↦
          rw (n, release)
            (released w.router.max_concurrency sem w.router.waiting w.router.max_queue_depth
              (length (remove_at w.leases i)) (rw n at h'))
    ]

arrive-Slots : (w : World) → Slots w → Slots (step w arrive)
unfolding step acquire_begin
arrive-Slots w h = elim (Option-cases w.router.semaphore) [
  | inl n ↦
      rw (n, step, acquire_begin)
        (acquire_finish-Slots w.router w.leases (
          rw n (
            no_limit w.router.max_concurrency w.router.waiting w.router.max_queue_depth
              (length w.leases) (suc (length w.leases)) (rw n at h))))
  | inr (sem, n) ↦
      rw (n, step, acquire_begin)
        (enter-Slots sem w.router w.leases (locked sem)
          (leb w.router.max_queue_depth w.router.waiting) refl refl (rw n at h) n)
]

status-Slots :
    (id : String) (st : ReplicaStatus) (error : Option String) (w : World)
    → Slots w
    → Slots (step w (status id st error))
unfolding step set_status
status-Slots id st error w h = elim (Option-cases (lookup w.router.replicas id)) [
  | inl e ↦ rw (e, step, set_status) h
  | inr (ref, e) ↦ rw (e, step, set_status) h
]

with_semaphore-Slots :
    (w : World) (o : Option Semaphore) (f : Semaphore → World)
    → Slots w
    → ((sem : Semaphore) → o ≡ some sem → Slots (f sem))
    → Slots (with_semaphore w o f)
with_semaphore-Slots w none f b h = b
with_semaphore-Slots w (some sem) f b h = h sem refl

-- Every event keeps the permits: those in the semaphore, those handed to waiters and the leases add
-- up to the limit, `waiting` counts the waiters and stays within the queue's depth, and no wake-up
-- is lost.
step-Slots : (w : World) (e : Event) → Slots w → Slots (step w e)
step-Slots w (add id base_url gpu_ids pid) h = unfold step add_replica in h
step-Slots w (remove id) h = unfold step remove_replica in h
step-Slots w (status id st error) h = status-Slots id st error w h
step-Slots w arrive h = arrive-Slots w h
step-Slots w (resume i) h =
    unfold step in
    with_semaphore-Slots w w.router.semaphore _ h
      (λ sem n. resumed-Slots i w (get_elem? sem.waiters i) sem n refl h)
step-Slots w (cancel i) h =
    unfold step in
    with_semaphore-Slots w w.router.semaphore _ h
      (λ sem n. cancelled-Slots i w (get_elem? sem.waiters i) sem n refl h)
step-Slots w (retry i error) h = unfold step in retried-Slots i w error (get_elem? w.leases i) h
step-Slots w (finish i failed error) h =
    unfold step in finished-Slots i failed error w (get_elem? w.leases i) refl h

pub run-Slots : (w : World) (es : List Event) → Slots w → Slots (run w es)
unfolding run
run-Slots w [] h = h
run-Slots w (e ∷ es) h = run-Slots (step w e) es (step-Slots w e h)
