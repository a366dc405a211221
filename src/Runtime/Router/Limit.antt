-- ===== src/Runtime/Router/Limit.antt =====
-- runtime/router.py: the limit and the reroutes of a router from its construction on, and what
-- `set_max_concurrency` does while requests are in flight.
use open_baseten_inference.Prelude.{
  ℕ, zero, suc, ◌+◌, ◌≤◌, ◌<◌, ◌≡◌, refl, Bool, Option, none, some, List, [], ◌∷◌, arith, String,
  get_elem?, length, inl, ap, ◌∙◌,
}
use open_baseten_inference.Schemas.Runtime.{ReplicaState}
use open_baseten_inference.Runtime.Policies.{RoutingPolicy}
use open_baseten_inference.Runtime.Semaphore
use open_baseten_inference.Runtime.Semaphore.{Semaphore, semaphore}
use open_baseten_inference.Runtime.Semaphore.Permits.{granted, release-permits}
use open_baseten_inference.Runtime.Router.{
  ReplicaRouter, RouteLease, RouteError, no_healthy_replica, Result, ok, err, select, new,
  make_semaphore, reroute, release, set_max_concurrency, move, add_failure, discharge,
}
use open_baseten_inference.Runtime.Router.Choice.{IsEligible, select-IsEligible, select-total}
use open_baseten_inference.Runtime.Router.World.{World, Event, finish, finished, step, run}
use open_baseten_inference.Runtime.Router.Ledger.{held}
use open_baseten_inference.Runtime.Router.Books.{start, run-inflight}
use open_baseten_inference.Runtime.Router.Permits.{Limited, Slots, SlotsAt, granted-add-pending}
use open_baseten_inference.Runtime.Router.Slots.{run-Slots}
use open_baseten_inference.Runtime.Router.Config.{run-SameConfig}

make_semaphore-suc : (n : ℕ) → make_semaphore (some (suc n)) ≡ some (semaphore (suc n))
make_semaphore-suc n = ground arith

start-Slots :
    (policy : RoutingPolicy) (limit : Option ℕ) (depth : ℕ) (heap : ℕ → ReplicaState)
    → Slots (start policy limit depth heap)
unfolding new
start-Slots policy none depth heap = (refl, refl)
start-Slots policy (some zero) depth heap = (refl, refl)
start-Slots policy (some (suc top)) depth heap =
    rw (make_semaphore-suc top)
      (record { capped = omega arith; queued = refl; bounded = omega arith; fair = λ h. inl refl })

-- the state of a router with a limit: it has a semaphore, which satisfies the invariant
abbrev pub HasLimit : ℕ → ℕ → World → Type 0
HasLimit top depth w =
    (sem : Semaphore) × (w.router.semaphore ≡ some sem)
    × Limited top sem w.router.waiting depth (length w.leases)

SlotsAt-HasLimit :
    (top depth n waiting : ℕ) (limit : Option ℕ) (depth' : ℕ) (o : Option Semaphore)
    → limit ≡ some (suc top)
    → depth' ≡ depth
    → SlotsAt limit o waiting depth' n
    → (sem : Semaphore) × (o ≡ some sem) × Limited (suc top) sem waiting depth n
SlotsAt-HasLimit top depth n waiting none depth' o e d h = absurd (cc)
SlotsAt-HasLimit top depth n waiting (some zero) depth' o e d h = absurd (omega (arith, positive e))
  where
    positive : some zero ≡ some (suc top) → zero ≡ suc top
    positive p = cc
SlotsAt-HasLimit top depth n waiting (some (suc k)) depth' none e d h =
    absurd (cc (h.0, make_semaphore-suc k))
SlotsAt-HasLimit top depth n waiting (some (suc k)) depth' (some sem) e d h =
    let same : suc k ≡ suc top = cc in (sem, refl, rw (← same, ← d) h)

-- A router built with a limit of `top + 1` never lets more than `top + 1` requests hold a lease at
-- once, and never keeps more than `depth` waiting: after any sequence of events the permits in the
-- semaphore, those handed to waiters and the leases add up to the limit.
pub run-HasLimit :
    (policy : RoutingPolicy) (top depth : ℕ) (heap : ℕ → ReplicaState) (es : List Event)
    → HasLimit (suc top) depth (run (start policy (some (suc top)) depth heap) es)
run-HasLimit policy top depth heap es =
    let w = start policy (some (suc top)) depth heap in
    let config = run-SameConfig w es in
    SlotsAt-HasLimit top depth _ _ _ _ _ (config.0 ∙ (unfold new in refl))
      (config.1 ∙ (unfold new in refl))
      (run-Slots w es (start-Slots policy (some (suc top)) depth heap))

held-le : (ref : ℕ) (ls : List RouteLease) → held ref ls ≤ length ls
held-le ref [] = omega arith
held-le ref (l ∷ ls) = ground (arith, held-le ref ls)

-- No replica object ever carries more requests than the limit.
pub run-inflight_capped :
    (policy : RoutingPolicy) (top depth : ℕ) (heap : ℕ → ReplicaState) (es : List Event) (ref : ℕ)
    → let w = run (start policy (some (suc top)) depth heap) es in
      ref < w.router.next → (w.router.heap ref).inflight_requests ≤ suc top
run-inflight_capped policy top depth heap es ref h =
    let w = run (start policy (some (suc top)) depth heap) es in
    let (sem, e, lim) = run-HasLimit policy top depth heap es in
    omega (
      arith,
      run-inflight policy (some (suc top)) depth heap es ref h,
      held-le ref w.leases,
      lim.capped,
    )

wakes :
    (top depth n waiting : ℕ) (sem : Semaphore)
    → Limited top sem waiting depth n
    → 0 < waiting
    → 0 < granted (Semaphore.release sem).waiters
wakes top depth n waiting sem lim h =
    let r = release-permits sem lim.fair in
    ground (
      arith,
      r.0,
      r.1,
      r.2,
      lim.queued,
      granted-add-pending (Semaphore.release sem).waiters,
      granted-add-pending sem.waiters,
    )

-- Under the limit's invariant, when a request ends while others wait, some waiter then holds a permit
-- and can run.
pub finish_wakes :
    (top depth i : ℕ) (l : RouteLease) (failed : Bool) (error : Option String) (w : World)
    → HasLimit top depth w
    → get_elem? w.leases i ≡ some l
    → 0 < w.router.waiting
    → (sem : Semaphore) × ((step w (finish i failed error)).router.semaphore ≡ some sem)
      × (0 < granted sem.waiters)
unfolding step release
finish_wakes top depth i l failed error w (sem, e, lim) at h =
    (Semaphore.release sem, rw (at, finished, e), wakes top depth _ _ sem lim h)

-- requests end one after another: each with its lease, and whether it failed
abbrev pub release_all : List (RouteLease × Bool × Option String) → ReplicaRouter → ReplicaRouter
release_all [] s = s
release_all ((l, failed, error) ∷ rest) s = release_all rest (release l failed error s)

release_all-semaphore :
    (ended : List (RouteLease × Bool × Option String)) (n : ℕ) (s : ReplicaRouter)
    → s.semaphore ≡ some (semaphore n)
    → (release_all ended s).semaphore ≡ some (semaphore (n + length ended))
release_all-semaphore [] n s e = e ∙ ap (λ k. some (semaphore k)) (omega arith)
release_all-semaphore ((l, failed, error) ∷ rest) n s e =
    release_all-semaphore rest (n + 1) (release l failed error s) one
    ∙ ap (λ k. some (semaphore k)) (omega arith)
  where
    one : (release l failed error s).semaphore ≡ some (semaphore (n + 1))
    one = unfold release in unfold Semaphore.release in rw e refl

-- `set_max_concurrency` while requests are in flight: each of them releases its permit into the new
-- semaphore, so that, when the requests of any number of earlier leases have ended, it has as many
-- permits more than the new limit.
pub set_max_concurrency_overshoots :
    (s : ReplicaRouter) (ended : List (RouteLease × Bool × Option String)) (top : ℕ)
    → (release_all ended (set_max_concurrency (some (suc top)) s)).semaphore
      ≡ some (semaphore (suc top + length ended))
unfolding set_max_concurrency
set_max_concurrency_overshoots s ended top =
    release_all-semaphore ended (suc top) (set_max_concurrency (some (suc top)) s)
      (make_semaphore-suc top)

-- What `reroute` promises.
abbrev pub Rerouted : RouteLease → ReplicaRouter → Result ℕ × RouteLease × ReplicaRouter → Type 0
Rerouted lease s (ok ref, lease', t) =
    IsEligible lease.excluded s ref
    × (lease' ≡ record { replica = ref; excluded = (s.heap ref).id ∷ lease.excluded })
    × ((t.heap lease.replica).failures ≡ (s.heap lease.replica).failures + 1)
Rerouted lease s (err e, lease', t) =
    (e ≡ no_healthy_replica) × (lease' ≡ lease) × (t.heap ≡ s.heap) × (t.semaphore ≡ s.semaphore)

failures-add_failure :
    (error : Option String) (r : ReplicaState)
    → (add_failure error (discharge r)).failures ≡ r.failures + 1
failures-add_failure none r = refl
failures-add_failure (some error) r = refl

move-Rerouted :
    (lease : RouteLease) (error : Option String) (s t : ReplicaRouter) (r : Result ℕ)
    → t.heap ≡ s.heap
    → t.semaphore ≡ s.semaphore
    → ((ref : ℕ) → r ≡ ok ref → IsEligible lease.excluded s ref)
    → ((e : RouteError) → r ≡ err e → e ≡ no_healthy_replica)
    → Rerouted lease s (move lease error r t)
move-Rerouted lease error s t (err e) same sem good bad = (bad e refl, refl, same, sem)
move-Rerouted lease error s t (ok ref) same sem good bad = (
  good ref refl,
  rw same,
  rw same (ground (arith, failures-add_failure error (s.heap lease.replica))),
)

-- A reroute that succeeds goes to a registered healthy replica that the request has not tried, notes
-- it as tried, and charges the abandoned replica one failure; one that fails raises
-- `NoHealthyReplicaError` and leaves the lease, every replica object and the permits as they were.
pub reroute-Rerouted :
    (lease : RouteLease) (error : Option String) (s : ReplicaRouter)
    → Rerouted lease s (reroute lease error s)
unfolding reroute
reroute-Rerouted lease error s =
    move-Rerouted lease error s (select lease.excluded s).1 (select lease.excluded s).0
      (unfold select in refl) (unfold select in refl)
      (λ ref. select-IsEligible lease.excluded s ref) (λ e h. (select-total lease.excluded s e h).1)
