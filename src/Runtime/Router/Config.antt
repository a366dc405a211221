-- ===== src/Runtime/Router/Config.antt =====
-- runtime/router.py: the configured limit and the depth of the queue over the events of the tasks.
use open_baseten_inference.Prelude.{
  ℕ, ◌≡◌, refl, Bool, true, false, Option, none, some, List, [], ◌∷◌, arith, get_elem?,
  Option-cases, inl, inr, if_intro, ◌&&◌, leb, ◌∙◌,
}
use open_baseten_inference.Runtime.Semaphore.{Semaphore, locked}
use open_baseten_inference.Runtime.Router.{
  ReplicaRouter, RouteLease, Result, ok, err, grant, select, acquire_begin, acquire_finish,
  acquire_resume, acquire_cancel, reroute, release, add_replica, remove_replica, set_status, move,
}
use open_baseten_inference.Runtime.Router.World.{
  World, Event, add, remove, status, arrive, resume, cancel, retry, finish, hold, begun,
  with_semaphore, resumed, retried, step, run,
}

-- the two numbers that no event changes
abbrev pub SameConfig : ReplicaRouter → World → Type 0
SameConfig s w =
    (w.router.max_concurrency ≡ s.max_concurrency) × (w.router.max_queue_depth ≡ s.max_queue_depth)

grant-SameConfig :
    (s t : ReplicaRouter) (ls : List RouteLease) (r : Result ℕ)
    → (t.max_concurrency ≡ s.max_concurrency) × (t.max_queue_depth ≡ s.max_queue_depth)
    → SameConfig s (hold ls (grant r t))
grant-SameConfig s t ls (err e) h = ground arith
grant-SameConfig s t ls (ok ref) h = h

acquire_finish-SameConfig :
    (s t : ReplicaRouter) (ls : List RouteLease)
    → (t.max_concurrency ≡ s.max_concurrency) × (t.max_queue_depth ≡ s.max_queue_depth)
    → SameConfig s (hold ls (acquire_finish t))
unfolding acquire_finish select
acquire_finish-SameConfig s t ls h = grant-SameConfig s _ ls _ h

step-SameConfig : (w : World) (e : Event) → SameConfig w.router (step w e)
unfolding step add_replica remove_replica set_status acquire_begin acquire_cancel acquire_resume
    release
step-SameConfig w (add id base_url gpu_ids pid) = (refl, refl)
step-SameConfig w (remove id) = (refl, refl)
step-SameConfig w (status id st error) = ground arith
step-SameConfig w arrive = elim (Option-cases w.router.semaphore) [
  | inl n ↦
      rw (n, step, acquire_begin)
        (acquire_finish-SameConfig w.router w.router w.leases (refl, refl))
  | inr (sem, n) ↦
      rw (n, step, acquire_begin)
        (if_intro (λ x. SameConfig w.router (begun w.leases x))
          (locked sem && leb w.router.max_queue_depth w.router.waiting) (refl, refl)
          (if_intro (λ x. SameConfig w.router (begun w.leases x)) (locked sem) (refl, refl)
            (acquire_finish-SameConfig w.router _ w.leases (refl, refl))))
]
step-SameConfig w (resume i) = go w.router.semaphore
  where
    on : (o : Option Bool) (sem : Semaphore) → SameConfig w.router (resumed i w o sem)
    on none sem = (refl, refl)
    on (some false) sem = (refl, refl)
    on (some true) sem = acquire_finish-SameConfig w.router _ w.leases (refl, refl)

    go :
        (o : Option Semaphore)
        → SameConfig w.router
            (with_semaphore w o (λ sem. resumed i w (get_elem? sem.waiters i) sem))
    go none = (refl, refl)
    go (some sem) = on (get_elem? sem.waiters i) sem
step-SameConfig w (cancel i) = ground arith
step-SameConfig w (retry i error) = go (get_elem? w.leases i)
  where
    went :
        (l : RouteLease) (r : Result ℕ) (t : ReplicaRouter)
        → (t.max_concurrency ≡ w.router.max_concurrency)
          × (t.max_queue_depth ≡ w.router.max_queue_depth)
        → SameConfig w.router (record w { router = (move l error r t).2 })
    went l (err e) t h = h
    went l (ok ref) t h = h

    go : (o : Option RouteLease) → SameConfig w.router (retried i w error o)
    go none = (refl, refl)
    go (some l) = unfold reroute select in went l _ _ (refl, refl)
step-SameConfig w (finish i failed error) = ground arith

pub run-SameConfig : (w : World) (es : List Event) → SameConfig w.router (run w es)
unfolding run
run-SameConfig w [] = (refl, refl)
run-SameConfig w (e ∷ es) =
    let (a, b) = step-SameConfig w e in let (c, d) = run-SameConfig (step w e) es in (c ∙ a, d ∙ b)
