-- ===== src/Runtime/Router/Permits.antt =====
-- runtime/router.py: the router's permits among its waiters and leases.
use open_baseten_inference.Prelude.{
  ℕ, suc, ◌+◌, ◌-◌, ◌≤◌, ◌≡◌, refl, Bool, true, false, Option, none, some, List, [], ◌∷◌, ◌++◌,
  arith, leb, get_elem?, length, length-append, Option-cases, inl, inr, sum_by-append,
}
use open_baseten_inference.Runtime.Semaphore
use open_baseten_inference.Runtime.Semaphore.{Semaphore, locked, leave}
use open_baseten_inference.Runtime.Semaphore.Permits.{
  IsFair, permits, granted, pending, as_number, release-permits, leave-permits, abandon-permits,
}
use open_baseten_inference.Runtime.Router.{
  ReplicaRouter, RouteLease, Result, ok, err, grant, select, make_semaphore, enter, acquire_finish,
  acquire_resume, acquire_cancel,
}
use open_baseten_inference.Runtime.Router.World.{World, hold, begun, resumed, cancelled}

pub record Limited (top : ℕ) (sem : Semaphore) (waiting depth leases : ℕ) : Type 0 where
  pub capped : permits sem + leases ≡ top
  pub queued : waiting ≡ length sem.waiters
  pub bounded : waiting ≤ depth
  pub fair : IsFair sem

abbrev pub SlotsAt : Option ℕ → Option Semaphore → ℕ → ℕ → ℕ → Type 0
SlotsAt (some top) (some sem) waiting depth leases = Limited top sem waiting depth leases
SlotsAt none (some sem) waiting depth leases = ⊥
SlotsAt limit none waiting depth leases = (make_semaphore limit ≡ none) × (waiting ≡ 0)

abbrev pub Slots : World → Type 0
Slots w =
    SlotsAt w.router.max_concurrency w.router.semaphore w.router.waiting w.router.max_queue_depth
      (length w.leases)

-- `n` permits are in the hands of requests
abbrev pub SlotsOf : ReplicaRouter → ℕ → Type 0
SlotsOf s n = SlotsAt s.max_concurrency s.semaphore s.waiting s.max_queue_depth n

pub length-snoc {ℓ} : {A : Type ℓ} (xs : List A) (x : A) → length (xs ++ x ∷ []) ≡ suc (length xs)
length-snoc xs x = omega (arith, length-append xs (x ∷ []))

pub released :
    (limit : Option ℕ) (sem : Semaphore) (waiting depth n : ℕ)
    → SlotsAt limit (some sem) waiting depth (suc n)
    → SlotsAt limit (some (Semaphore.release sem)) waiting depth n
released none sem waiting depth n h = h
released (some top) sem waiting depth n h =
    let r = release-permits sem h.fair in
    record {
      capped = omega (arith, h.capped, r.0);
      queued = omega (arith, h.queued, r.1);
      bounded = h.bounded;
      fair = r.2;
    }

pub no_limit :
    (limit : Option ℕ) (waiting depth n m : ℕ)
    → SlotsAt limit none waiting depth n
    → SlotsAt limit none waiting depth m
no_limit none waiting depth n m h = h
no_limit (some top) waiting depth n m h = h

grant-Slots :
    (t : ReplicaRouter) (ls : List RouteLease) (r : Result ℕ)
    → SlotsOf t (suc (length ls))
    → Slots (hold ls (grant r t))
grant-Slots t ls (err e) h = elim (Option-cases t.semaphore) [
  | inl n ↦ rw n (
      no_limit t.max_concurrency t.waiting t.max_queue_depth (suc (length ls)) (length ls)
        (rw n at h))
  | inr (sem, n) ↦
      rw n (released t.max_concurrency sem t.waiting t.max_queue_depth (length ls) (rw n at h))
]
grant-Slots t ls (ok ref) h = rw length-snoc h

pub acquire_finish-Slots :
    (s : ReplicaRouter) (ls : List RouteLease)
    → SlotsOf s (suc (length ls))
    → Slots (hold ls (acquire_finish s))
unfolding acquire_finish
acquire_finish-Slots s ls h = grant-Slots (select [] s).1 ls (select [] s).0 (unfold select in h)

pub granted-add-pending : (ws : List Bool) → granted ws + pending ws ≡ length ws
granted-add-pending [] = refl
granted-add-pending (true ∷ ws) = omega (arith, granted-add-pending ws)
granted-add-pending (false ∷ ws) = omega (arith, granted-add-pending ws)

enqueue-IsFair :
    (sem : Semaphore)
    → locked sem ≡ true
    → IsFair sem
    → IsFair (record sem { waiters = sem.waiters ++ false ∷ [] })
unfolding locked
enqueue-IsFair sem full f =
    ground
      (arith, granted-add-pending sem.waiters, sum_by-append as_number sem.waiters (false ∷ []))

pub enqueued :
    (limit : Option ℕ) (sem : Semaphore) (waiting depth n : ℕ)
    → locked sem ≡ true
    → leb depth waiting ≡ false
    → SlotsAt limit (some sem) waiting depth n
    → SlotsAt limit
        (some (record sem { waiters = sem.waiters ++ false ∷ [] }))
        (waiting + 1)
        depth
        n
enqueued none sem waiting depth n full room h = h
enqueued (some top) sem waiting depth n full room h = record {
  capped = omega (arith, h.capped, sum_by-append as_number sem.waiters (false ∷ []));
  queued = omega (arith, h.queued, length-snoc sem.waiters false);
  bounded = ground arith;
  fair = enqueue-IsFair sem full h.fair;
}

pub admitted :
    (limit : Option ℕ) (sem : Semaphore) (waiting depth n : ℕ)
    → locked sem ≡ false
    → SlotsAt limit (some sem) waiting depth n
    → SlotsAt limit (some (record sem { value = sem.value - 1 })) waiting depth (suc n)
unfolding locked
admitted none sem waiting depth n free h = h
admitted (some top) sem waiting depth n free h = record {
  capped = ground (arith, h.capped);
  queued = h.queued;
  bounded = h.bounded;
  fair = λ pos. ground (arith, granted-add-pending sem.waiters);
}

pub enter-Slots :
    (sem : Semaphore) (s : ReplicaRouter) (ls : List RouteLease) (full over : Bool)
    → locked sem ≡ full
    → leb s.max_queue_depth s.waiting ≡ over
    → SlotsAt s.max_concurrency (some sem) s.waiting s.max_queue_depth (length ls)
    → s.semaphore ≡ some sem
    → Slots (begun ls (enter sem s))
enter-Slots sem s ls true true e o h n = rw (e, o, n) h
enter-Slots sem s ls true false e o h n =
    rw (e, o) (enqueued s.max_concurrency sem s.waiting s.max_queue_depth (length ls) e o h)
enter-Slots sem s ls false over e o h n = rw e (
    acquire_finish-Slots (record s { semaphore = some (record sem { value = sem.value - 1 }) }) ls
      (admitted s.max_concurrency sem s.waiting s.max_queue_depth (length ls) e h))

pub resumed-Slots :
    (i : ℕ) (w : World) (o : Option Bool) (sem : Semaphore)
    → w.router.semaphore ≡ some sem
    → get_elem? sem.waiters i ≡ o
    → Slots w
    → Slots (resumed i w o sem)
unfolding acquire_resume
resumed-Slots i w none sem n at h = h
resumed-Slots i w (some false) sem n at h = h
resumed-Slots i w (some true) sem n at h = acquire_finish-Slots _ w.leases (
    left w.router.max_concurrency w.router.waiting w.router.max_queue_depth (length w.leases)
      (rw n at h))
  where
    left :
        (limit : Option ℕ) (waiting depth k : ℕ)
        → SlotsAt limit (some sem) waiting depth k
        → SlotsAt limit (some (leave i sem)) (waiting - 1) depth (suc k)
    left none waiting depth k h = h
    left (some top) waiting depth k h =
        let r = leave-permits i sem true at in
        record {
          capped = omega (arith, h.capped, r.0);
          queued = omega (arith, h.queued, r.1);
          bounded = omega (arith, h.bounded);
          fair = r.2;
        }

pub cancelled-Slots :
    (i : ℕ) (w : World) (o : Option Bool) (sem : Semaphore)
    → w.router.semaphore ≡ some sem
    → get_elem? sem.waiters i ≡ o
    → Slots w
    → Slots (cancelled i w o sem)
unfolding acquire_cancel
cancelled-Slots i w none sem n at h = h
cancelled-Slots i w (some done) sem n at h =
    gone w.router.max_concurrency w.router.waiting w.router.max_queue_depth (length w.leases)
      (rw n at h)
  where
    gone :
        (limit : Option ℕ) (waiting depth k : ℕ)
        → SlotsAt limit (some sem) waiting depth k
        → SlotsAt limit (some (Semaphore.abandon i done sem)) (waiting - 1) depth k
    gone none waiting depth k h = h
    gone (some top) waiting depth k h =
        let r = abandon-permits i sem done at in
        record {
          capped = omega (arith, h.capped, r.0);
          queued = omega (arith, h.queued, r.1);
          bounded = omega (arith, h.bounded);
          fair = r.2;
        }
