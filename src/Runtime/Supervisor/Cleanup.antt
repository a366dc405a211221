-- ===== src/Runtime/Supervisor/Cleanup.antt =====
-- runtime/supervisor.py: what a run of a deployment leaves behind.
use open_baseten_inference.Prelude.{
  ℕ, ◌≡◌, refl, ap, ◌∙◌, Bool, true, false, not, ◌&&◌, ◌||◌, if◌then◌else◌, if_intro, List, [],
  mem_nat, arith,
}
use open_baseten_inference.Runtime.Ports.{IsValid}
use open_baseten_inference.Runtime.Launch.{ReplicaSet, launch_run, stop}
use open_baseten_inference.Runtime.Launch.Returned.{
  Accounts, run-Accounts, stop-Accounts, new-Accounts, stop-allocated,
}
use open_baseten_inference.Runtime.Supervisor.{
  Deployment, Script, start_set, served, start, shutdown, run,
}

abbrev pub started : Script → Bool
started c = c.all_launched && (c.server_starts && c.state_written)

abbrev pub file_removed : Script → Bool
file_removed c = c.launcher_shut_down && c.state_cleared

-- what a run leaves: the ports that were reserved before it, no allocated ones, no health checker, and
-- the state file only where the launcher or the removal raised; it ends without an exception exactly
-- when it started, was asked to stop and removed the file
pub record IsCleanedUp (c : Script) (d : Deployment) (o : Bool × Deployment) : Type 0 where
  pub given_back :
      (p : ℕ) → mem_nat p o.1.replica_set.ports.reserved ≡ mem_nat p d.replica_set.ports.reserved
  pub none_allocated : o.1.replica_set.allocated_ports ≡ []
  pub unchecked : o.1.checking ≡ false
  pub file : o.1.state_file ≡ ((d.state_file || started c) && not (file_removed c))
  pub ready : o.1.ready ≡ (d.ready || started c)
  pub ended : o.0 ≡ (started c && (c.stop_requested && file_removed c))

start_set-Accounts :
    (c : Script) (before : List ℕ) (s : ReplicaSet)
    → Accounts before s
    → Accounts before (start_set c s)
start_set-Accounts c before s h =
    let k = run-Accounts before c.launches s h in
    if_intro (Accounts before) c.all_launched k (stop-Accounts before (launch_run c.launches s) k)

start-Accounts :
    (c : Script) (before : List ℕ) (d : Deployment)
    → Accounts before d.replica_set
    → Accounts before (start c d).1.replica_set
unfolding start
start-Accounts c before d h =
    let k = start_set-Accounts c before d.replica_set h in
    let P = λ (o : Bool × Deployment). Accounts before o.1.replica_set in
    if_intro P (not c.all_launched) k
      (if_intro P (not c.server_starts) k (if_intro P (not c.state_written) k k))

start-flags :
    (c : Script) (d : Deployment)
    → ((start c d).0 ≡ started c)
      × ((start c d).1.state_file ≡ (d.state_file || started c))
      × ((start c d).1.ready ≡ (d.ready || started c))
unfolding start
start-flags c d = ground arith

-- the ports of a set that has stopped
abbrev IsStopped : List ℕ → ReplicaSet → Type 0
IsStopped before s =
    ((p : ℕ) → mem_nat p s.ports.reserved ≡ mem_nat p before) × (s.allocated_ports ≡ [])

shutdown-IsStopped :
    (c : Script) (before : List ℕ) (d : Deployment)
    → c.health_stops ≡ true
    → Accounts before d.replica_set
    → IsStopped before (shutdown c d).1.replica_set
unfolding shutdown
shutdown-IsStopped c before d h k =
    let P = λ (o : Bool × Deployment). IsStopped before o.1.replica_set in
    let done : IsStopped before (stop d.replica_set) = (
      λ p. (stop-Accounts before d.replica_set k).0 p ∙ rw (stop-allocated d.replica_set) refl,
      stop-allocated d.replica_set,
    ) in
    rw h (if_intro P (not c.launcher_shut_down) done (if_intro P (not c.state_cleared) done done))

shutdown-flags :
    (c : Script) (d : Deployment)
    → c.health_stops ≡ true
    → ((shutdown c d).0 ≡ file_removed c)
      × ((shutdown c d).1.state_file ≡ (d.state_file && not (file_removed c)))
      × ((shutdown c d).1.ready ≡ d.ready)
      × ((shutdown c d).1.checking ≡ false)
unfolding shutdown
shutdown-flags c d h = ground arith

-- Where the health checker stops without an exception: a run of a deployment with a valid allocator and
-- no allocated ports, whatever its launches do, wherever its start or its serving raises and whatever
-- the requests do to the router, leaves exactly the ports reserved that were reserved before it and no
-- health checker; the state file is left only where the launcher's shutdown or the file's removal
-- raises; and the run ends without an exception exactly when all of the start succeeds, a shutdown is
-- requested, and those two do not raise.
pub run-IsCleanedUp :
    (c : Script) (d : Deployment)
    → IsValid d.replica_set.ports
    → d.replica_set.allocated_ports ≡ []
    → c.health_stops ≡ true
    → IsCleanedUp c d (run c d)
unfolding run
run-IsCleanedUp c d v e h =
    let before = d.replica_set.ports.reserved in
    let o = start c d in
    let k = start-Accounts c before d (new-Accounts d.replica_set v e) in
    let d₁ = if o.0 then served c o.1 else o.1 in
    let done =
      shutdown-IsStopped c before d₁ h
        (if_intro (λ (t : Deployment). Accounts before t.replica_set) o.0 k k) in
    let f = start-flags c d in
    let g = shutdown-flags c d₁ h in
    let kept : (d₁.state_file ≡ o.1.state_file) × (d₁.ready ≡ o.1.ready) =
      if_intro (λ (t : Deployment). (t.state_file ≡ o.1.state_file) × (t.ready ≡ o.1.ready)) o.0
        (refl, refl) (refl, refl) in
    record {
      given_back = done.0;
      none_allocated = done.1;
      unchecked = g.3;
      file = g.1 ∙ ap (λ (b : Bool). b && not (file_removed c)) (kept.0 ∙ f.1);
      ready = g.2 ∙ kept.1 ∙ f.2;
      ended = cc (f.0, g.0);
    }
