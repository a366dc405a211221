-- ===== src/Runtime/Health/Probes.antt =====
-- runtime/health.py: what deaths and probes do to the replica that the router holds.
use open_baseten_inference.Prelude.{
  ℕ, zero, suc, ◌+◌, ◌≤◌, ◌≡◌, refl, Bool, true, false, ◌&&◌, none, some, List, [], ◌∷◌, ◌++◌,
  arith, String, ltb, leb, length, length-append, sum_by, sum_by-append, if◌then◌else◌, ==_refl,
  mem_nat, if_cases, ap, ◌∙◌, inl, inr, le_or_lt,
}
use open_baseten_inference.Prelude.Dict.{lookup}
use open_baseten_inference.Schemas.Runtime.{ReplicaState, ReplicaStatus}
use open_baseten_inference.Runtime.Router.{ReplicaRouter, set_status, find_replica}
use open_baseten_inference.Runtime.Health.{
  Replica, HealthChecker, forget_old, handle_dead, record_event, Outcome, apply_probe, HealthEvent,
  budget,
}
use open_baseten_inference.Runtime.Health.Budget.{Ascending}

-- `n` failed probes in a row
abbrev pub failed_probes : ℕ → ℕ → ReplicaState → ReplicaState
failed_probes unhealthy_after zero r = r
failed_probes unhealthy_after (suc n) r =
    apply_probe unhealthy_after false (failed_probes unhealthy_after n r)

abbrev expected_status : ℕ → ℕ → ReplicaStatus
expected_status unhealthy_after n =
    if ltb n unhealthy_after then ReplicaStatus.healthy else ReplicaStatus.unhealthy

-- A healthy replica without failures stays healthy for fewer than `unhealthy_after` failed probes in
-- a row and is unhealthy from that many on; a probe that succeeds makes it healthy and clears the
-- count.
pub failed_probes-status :
    (k n : ℕ) (r : ReplicaState)
    → r.status ≡ ReplicaStatus.healthy
    → r.consecutive_health_failures ≡ 0
    → let r' = failed_probes (suc k) n r in
      (r'.status ≡ expected_status (suc k) n)
      × (r'.consecutive_health_failures ≡ n)
      × ((apply_probe (suc k) true r').status ≡ ReplicaStatus.healthy)
      × ((apply_probe (suc k) true r').consecutive_health_failures ≡ 0)
unfolding apply_probe
failed_probes-status k zero r h z = ground arith
failed_probes-status k (suc n) r h z = ground (arith, failed_probes-status k n r h z)

set_status-heap :
    (id : String) (st : ReplicaStatus) (e : String) (s : ReplicaRouter) (ref : ℕ)
    → lookup s.replicas id ≡ some ref
    → ((set_status id st (some e) s).replicas ≡ s.replicas)
      × (((set_status id st (some e) s).heap ref).status ≡ st)
unfolding set_status
set_status-heap id st e s ref h = ground (arith, ==_refl ref)

-- the restarts on record that the window has not left behind at `now`
abbrev pub recent : ℕ → ℕ → List ℕ → ℕ
recent window now = sum_by (λ t. if leb now (t + window) then 1 else 0)

recent-all :
    (window now t : ℕ) (times : List ℕ)
    → now ≤ t + window
    → Ascending t times
    → recent window now times ≡ length times
recent-all window now t [] h a = refl
recent-all window now t (u ∷ times) h a =
    ground (arith, recent-all window now u times (omega (arith, a.0)) a.1, a.0)

-- Of a deque in the order of time, what is left after the loop is what is recent.
length-forget_old :
    (window now last : ℕ) (times : List ℕ)
    → Ascending last times
    → length (forget_old window now times) ≡ recent window now times
unfolding forget_old
length-forget_old window now last [] a = refl
length-forget_old window now last (t ∷ times) a = elim (le_or_lt now (t + window)) [
  | inl near ↦ ground (arith, recent-all window now t times near a.1)
  | inr far ↦ ground (arith, length-forget_old window now t times a.1)
]

-- whether another restart is allowed: restarts are enabled, and fewer than `max_restarts` are recent
abbrev pub may_restart : ℕ → Replica → HealthChecker → Bool
may_restart now r c =
    c.restart_enabled && ltb (recent c.window now (c.restart_times r.index)) c.max_restarts

-- What a death comes to, for the checker before it: no restart is allowed, none is scheduled, and the
-- replica is stopped; or one is allowed, and the next one is scheduled of a replica that is unhealthy
-- and marked as restarting, with its time put on record.
abbrev pub Handled : ℕ → Replica → ℕ → HealthChecker → Outcome → Type 0
Handled now r ref c (none, c', s) =
    (may_restart now r c ≡ false)
    × ((s.heap ref).status ≡ ReplicaStatus.stopped)
    × (c'.restarting_set ≡ c.restarting_set)
Handled now r ref c (some attempt, c', s) =
    (may_restart now r c ≡ true)
    × ((s.heap ref).status ≡ ReplicaStatus.unhealthy)
    × (attempt ≡ recent c.window now (c.restart_times r.index) + 1)
    × (mem_nat r.index c'.restarting_set ≡ true)
    × (recent c.window now (c'.restart_times r.index) ≡ attempt)

recent-next :
    (window now last : ℕ) (times : List ℕ)
    → Ascending last times
    → recent window now (forget_old window now times ++ now ∷ []) ≡ recent window now times + 1
unfolding forget_old
recent-next window now last [] a = ground arith
recent-next window now last (t ∷ times) a = elim (le_or_lt now (t + window)) [
  | inl near ↦
      ground (arith, sum_by-append (λ u. if leb now (u + window) then 1 else 0) times (now ∷ []))
  | inr far ↦ ground (arith, recent-next window now t times a.1)
]

budget-Handled :
    (now : ℕ) (r : Replica) (c : HealthChecker) (s : ReplicaRouter) (ref : ℕ) (room : Bool)
    → leb c.max_restarts (length (forget_old c.window now (c.restart_times r.index))) ≡ room
    → c.restart_enabled ≡ true
    → Ascending 0 (c.restart_times r.index)
    → lookup s.replicas r.id ≡ some ref
    → (s.heap ref).status ≡ ReplicaStatus.unhealthy
    → Handled now r ref c (budget now r c s)
unfolding record_event
budget-Handled now r c s ref true e on asc at st =
    let count = length-forget_old c.window now 0 (c.restart_times r.index) asc in
    rw e (
      ground (arith, count, on, e),
      (set_status-heap r.id ReplicaStatus.stopped "restart budget exhausted" s ref at).1,
      refl,
    )
budget-Handled now r c s ref false e on asc at st =
    let times = c.restart_times r.index in
    let count = length-forget_old c.window now 0 times asc in
    let long = length-append (forget_old c.window now times) (now ∷ []) in
    rw e (
      ground (arith, count, on, e),
      st,
      omega (arith, long, count),
      ground (arith, ==_refl r.index),
      rw (==_refl r.index) (omega (arith, long, count, recent-next c.window now 0 times asc)),
    )

-- The death of a replica that the router knows, where the restarts on record are in the order of time:
-- if restarts are disabled, or `max_restarts` of them lie within the window, no restart is scheduled
-- and the replica is stopped; otherwise it is unhealthy, and a restart is scheduled, whose number is one
-- more than the restarts within the window and which counts as one from then on.
pub handle_dead-Handled :
    (now : ℕ) (r : Replica) (reason : String) (c : HealthChecker) (s : ReplicaRouter) (ref : ℕ)
    → find_replica r.id s ≡ some ref
    → Ascending 0 (c.restart_times r.index)
    → Handled now r ref c (handle_dead now r reason c s)
unfolding handle_dead record_event
handle_dead-Handled now r reason c s ref at asc =
    let s' = set_status r.id ReplicaStatus.unhealthy (some reason) s in
    let at' = ap (λ m. lookup m r.id) down.0 ∙ at in
    if_cases (λ o. Handled now r ref c o) c.restart_enabled
      (λ on.
        budget-Handled now r (record_event (HealthEvent.died r.id reason) c) s' ref _ refl on asc
          at' down.1)
      (λ off. (
        ground (arith, off),
        (set_status-heap r.id ReplicaStatus.stopped reason s' ref at').1,
        refl,
      ))
  where
    down :
        ((set_status r.id ReplicaStatus.unhealthy (some reason) s).replicas ≡ s.replicas)
        × (((set_status r.id ReplicaStatus.unhealthy (some reason) s).heap ref).status
            ≡ ReplicaStatus.unhealthy)
    down = set_status-heap r.id ReplicaStatus.unhealthy reason s ref at
