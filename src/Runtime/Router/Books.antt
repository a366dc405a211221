-- ===== src/Runtime/Router/Books.antt =====
-- runtime/router.py: the ledger over the events of the tasks.
use open_baseten_inference.Prelude.{
  ℕ, ◌+◌, ◌-◌, ◌<◌, ◌≡◌, refl, Bool, true, false, Option, none, some, List, [], ◌∷◌, arith, String,
  All-map, if_intro, get_elem?, modify, modify_self, ◌&&◌, leb, Option-cases, inl, inr,
}
use open_baseten_inference.Prelude.Dict.{lookup}
use open_baseten_inference.Schemas.Runtime.{ReplicaState, ReplicaStatus}
use open_baseten_inference.Runtime.Policies.{RoutingPolicy}
use open_baseten_inference.Runtime.Semaphore.{Semaphore, locked}
use open_baseten_inference.Runtime.Router.{
  ReplicaRouter, RouteLease, Result, ok, err, grant, select, acquire_begin, acquire_finish,
  acquire_resume, acquire_cancel, reroute, release, add_replica, remove_replica, set_status, move,
  new,
}
use open_baseten_inference.Runtime.Router.Choice.{refs}
use open_baseten_inference.Runtime.Router.World.{
  World, Event, add, remove, status, arrive, resume, cancel, retry, finish, hold, begun,
  with_semaphore, resumed, cancelled, retried, finished, step, run,
}
use open_baseten_inference.Runtime.Router.Ledger.{
  held, Balanced, Books, held-fresh, refs-assign, refs-discard_key, note_error-inflight,
  charge-Balanced, move-Balanced, drop-Balanced, chosen-lt,
}

add-Books :
    (id base_url : String) (gpu_ids : List ℕ) (pid : Option ℕ) (w : World)
    → Books w
    → Books (step w (add id base_url gpu_ids pid))
unfolding step add_replica
add-Books id base_url gpu_ids pid w b = record {
  leases_valid = All-map _ _ (λ l h. omega arith) w.leases b.leases_valid;
  replicas_valid =
      refs-assign (λ ref. ref < w.router.next + 1) w.router.replicas id w.router.next
        (All-map _ _ (λ ref h. omega arith) (refs w.router.replicas) b.replicas_valid)
        (omega arith);
  counted = λ ref h. ground (arith, b.counted ref, held-fresh w.router.next ref w.leases);
}

remove-Books : (id : String) (w : World) → Books w → Books (step w (remove id))
unfolding step remove_replica
remove-Books id w b = record {
  leases_valid = b.leases_valid;
  replicas_valid =
      refs-discard_key (λ ref. ref < w.router.next) w.router.replicas id b.replicas_valid;
  counted = b.counted;
}

status-Books :
    (id : String) (st : ReplicaStatus) (error : Option String) (w : World)
    → Books w
    → Books (step w (status id st error))
unfolding step set_status
status-Books id st error w b = elim (Option-cases (lookup w.router.replicas id)) [
  | inl e ↦ rw (e, step, set_status) b
  | inr (ref, e) ↦
      rw (e, step, set_status)
        (record {
          leases_valid = b.leases_valid;
          replicas_valid = b.replicas_valid;
          counted = λ r h. ground (
            arith,
            b.counted r h,
            note_error-inflight error (record (w.router.heap r) { status = st }),
          );
        })
]

-- One more lease on an allocated object.
grant-Books :
    (t : ReplicaRouter) (ls : List RouteLease) (r : Result ℕ)
    → Balanced t.heap t.next t.replicas ls
    → ((ref : ℕ) → r ≡ ok ref → ref < t.next)
    → Books (hold ls (grant r t))
grant-Books t ls (err e) b lt = elim (Option-cases t.semaphore) [
  | inl n ↦ rw n b
  | inr (sem, n) ↦ rw n b
]
grant-Books t ls (ok ref) b lt =
    charge-Balanced (record { replica = ref; excluded = (t.heap ref).id ∷ [] }) b (lt ref refl)

-- With a permit in hand, the request charges the object that it puts in its lease.
pub acquire_finish-Books :
    (s : ReplicaRouter) (ls : List RouteLease)
    → Balanced s.heap s.next s.replicas ls
    → Books (hold ls (acquire_finish s))
unfolding acquire_finish
acquire_finish-Books s ls b =
    grant-Books (select [] s).1 ls (select [] s).0 (unfold select in b)
      (λ ref h. unfold select in chosen-lt [] s ref b h)

arrive-Books : (w : World) → Books w → Books (step w arrive)
unfolding step acquire_begin
arrive-Books w b = elim (Option-cases w.router.semaphore) [
  | inl n ↦ rw (n, step, acquire_begin) (acquire_finish-Books w.router w.leases b)
  | inr (sem, n) ↦
      rw (n, step, acquire_begin)
        (if_intro (λ x. Books (begun w.leases x))
          (locked sem && leb w.router.max_queue_depth w.router.waiting) b
          (if_intro (λ x. Books (begun w.leases x)) (locked sem) b
            (acquire_finish-Books
              (record w.router { semaphore = some (record sem { value = sem.value - 1 }) }) w.leases
              b)))
]

with_semaphore-Books :
    (w : World) (o : Option Semaphore) (f : Semaphore → World)
    → Books w
    → ((sem : Semaphore) → Books (f sem))
    → Books (with_semaphore w o f)
with_semaphore-Books w none f b h = b
with_semaphore-Books w (some sem) f b h = h sem

resumed-Books :
    (i : ℕ) (w : World) (o : Option Bool) (sem : Semaphore) → Books w → Books (resumed i w o sem)
unfolding acquire_resume
resumed-Books i w none sem b = b
resumed-Books i w (some false) sem b = b
resumed-Books i w (some true) sem b = acquire_finish-Books _ w.leases b

cancelled-Books :
    (i : ℕ) (w : World) (o : Option Bool) (sem : Semaphore) → Books w → Books (cancelled i w o sem)
unfolding acquire_cancel
cancelled-Books i w none sem b = b
cancelled-Books i w (some done) sem b = b

move-Books :
    (i : ℕ) (l : RouteLease) (error : Option String) (ls : List RouteLease) (t : ReplicaRouter)
    (r : Result ℕ)
    → get_elem? ls i ≡ some l
    → ((ref : ℕ) → r ≡ ok ref → ref < t.next)
    → Balanced t.heap t.next t.replicas ls
    → Books
        (record { router = (move l error r t).2; leases = modify ls i (λ _. (move l error r t).1) })
move-Books i l error ls t (err e) at lt b = rw (modify_self ls i l at) b
move-Books i l error ls t (ok ref) at lt b =
    move-Balanced i l (record { replica = ref; excluded = (t.heap ref).id ∷ l.excluded }) error at b
      (lt ref refl)

pub retried-Books :
    (i : ℕ) (w : World) (error : Option String) (o : Option RouteLease)
    → get_elem? w.leases i ≡ o
    → Books w
    → Books (retried i w error o)
unfolding reroute
retried-Books i w error none at b = b
retried-Books i w error (some l) at b =
    move-Books i l error w.leases (select l.excluded w.router).1 (select l.excluded w.router).0 at
      (λ ref h. unfold select in chosen-lt l.excluded w.router ref b h) (unfold select in b)

pub finished-Books :
    (i : ℕ) (failed : Bool) (error : Option String) (w : World) (o : Option RouteLease)
    → get_elem? w.leases i ≡ o
    → Books w
    → Books (finished i w failed error o)
unfolding release
finished-Books i failed error w none at b = b
finished-Books i failed error w (some l) at b = elim (Option-cases w.router.semaphore) [
  | inl n ↦ rw (n, release) (drop-Balanced i l failed error at b)
  | inr (sem, n) ↦ rw (n, release) (drop-Balanced i l failed error at b)
]

-- Every event keeps the books: whichever task runs next, the in-flight counter of each replica
-- object, registered or not, is the number of leases that hold it.
step-Books : (w : World) (e : Event) → Books w → Books (step w e)
step-Books w (add id base_url gpu_ids pid) b = add-Books id base_url gpu_ids pid w b
step-Books w (remove id) b = remove-Books id w b
step-Books w (status id st error) b = status-Books id st error w b
step-Books w arrive b = arrive-Books w b
step-Books w (resume i) b =
    unfold step in
    with_semaphore-Books w w.router.semaphore _ b
      (λ sem. resumed-Books i w (get_elem? sem.waiters i) sem b)
step-Books w (cancel i) b =
    unfold step in
    with_semaphore-Books w w.router.semaphore _ b
      (λ sem. cancelled-Books i w (get_elem? sem.waiters i) sem b)
step-Books w (retry i error) b =
    unfold step in retried-Books i w error (get_elem? w.leases i) refl b
step-Books w (finish i failed error) b =
    unfold step in finished-Books i failed error w (get_elem? w.leases i) refl b

pub run-Books : (w : World) (es : List Event) → Books w → Books (run w es)
unfolding run
run-Books w [] b = b
run-Books w (e ∷ es) b = run-Books (step w e) es (step-Books w e b)

-- a router as it is built, before any request
abbrev pub start : RoutingPolicy → Option ℕ → ℕ → (ℕ → ReplicaState) → World
start policy max_concurrency depth heap = record {
  router = new policy max_concurrency depth heap;
  leases = [];
}

-- From a new router on, after any sequence of registrations, removals, status changes, arrivals,
-- resumptions, cancellations, reroutes and releases, the in-flight counter of each replica object
-- that was ever made is exactly the number of leases that hold it.
pub run-inflight :
    (policy : RoutingPolicy) (limit : Option ℕ) (depth : ℕ) (heap : ℕ → ReplicaState)
    (es : List Event) (ref : ℕ)
    → let w = run (start policy limit depth heap) es in
      ref < w.router.next → (w.router.heap ref).inflight_requests ≡ held ref w.leases
run-inflight policy limit depth heap es ref h =
    (run-Books (start policy limit depth heap) es (unfold new in empty)).counted ref h
  where
    empty : Balanced heap 0 [] []
    empty = record {
      leases_valid = tt;
      replicas_valid = tt;
      counted = λ r lt. absurd (omega arith);
    }
