-- ===== src/Benchmark/Evaluator/Returned.antt =====
-- benchmark/evaluator.py: the ports after evaluations.
use open_baseten_inference.Prelude.{
  ℕ, ◌≡◌, refl, ◌∙◌, Bool, true, false, not, if_intro, List, [], ◌∷◌, mem_nat,
}
use open_baseten_inference.Runtime.Ports.{PortAllocator, IsValid}
use open_baseten_inference.Runtime.Launch.{ReplicaSet, launch_run, stop}
use open_baseten_inference.Runtime.Launch.Returned.{
  Accounts, run-Accounts, stop-Accounts, new-Accounts, stop-allocated,
}
use open_baseten_inference.Benchmark.Evaluator.{
  Evaluation, OpenResult, opened, launch_failed, unavailable, server_failed, no_gpu, new_set,
  revalidate_free_memory, open_session, close, benchmarked, closed_after, evaluate, evaluate_all,
  next_evaluation,
}

abbrev pub SamePorts : List ℕ → PortAllocator → Type 0
SamePorts before ports = ((p : ℕ) → mem_nat p ports.reserved ≡ mem_nat p before) × IsValid ports

stop-SamePorts :
    (before : List ℕ) (s : ReplicaSet) → Accounts before s → SamePorts before (stop s).ports
stop-SamePorts before s h =
    let k = stop-Accounts before s h in (λ p. k.0 p ∙ rw (stop-allocated s) refl, k.2)

abbrev Held : List ℕ → OpenResult × PortAllocator → Type 0
Held before (opened session, ports) = Accounts before session.replica_set × (session.closed ≡ false)
Held before (_, ports) = SamePorts before ports

open_session-Held :
    (e : Evaluation) (ports : PortAllocator)
    → IsValid ports
    → Held ports.reserved (open_session e ports)
unfolding open_session
open_session-Held e ports v =
    let before = ports.reserved in
    let set = launch_run e.launches (new_set e.router ports) in
    let k =
      run-Accounts before e.launches (new_set e.router ports)
        (new-Accounts (new_set e.router ports) v refl) in
    let same : SamePorts before ports = (λ p. refl, v) in
    let stopped = stop-SamePorts before set k in
    if_intro (Held before) (not e.engine_available) {x = (unavailable, ports)} same (
      if_intro (Held before) (not (no_gpu (revalidate_free_memory e.budget e.hardware e.gpu_ids)))
        {x = (launch_failed, ports)} same
        (if_intro (Held before) (not e.all_launched) {x = (launch_failed, (stop set).ports)} stopped
          (if_intro (Held before) (not e.server_starts) {x = (server_failed, (stop set).ports)}
            {y = (opened (record { replica_set = set; closed = false }), set.ports)} stopped
            (k, refl))))

closed_after-SamePorts :
    (before : List ℕ) (e : Evaluation) (o : OpenResult × PortAllocator)
    → Held before o
    → SamePorts before (closed_after e o).1
unfolding close
closed_after-SamePorts before e (opened session, ports) (k, is_open) =
    rw is_open (stop-SamePorts before (benchmarked e session).replica_set k)
closed_after-SamePorts before e (launch_failed, ports) h = h
closed_after-SamePorts before e (unavailable, ports) h = h
closed_after-SamePorts before e (server_failed, ports) h = h

next-SamePorts :
    (before : List ℕ) (rest : PortAllocator → Bool × PortAllocator) (o : Bool × PortAllocator)
    → SamePorts before o.1
    → ((ports : PortAllocator) → SamePorts before ports → SamePorts before (rest ports).1)
    → SamePorts before (next_evaluation rest o).1
next-SamePorts before rest (true, ports) h later = later ports h
next-SamePorts before rest (false, ports) h later = h

evaluate_all-keeps :
    (es : List Evaluation) (before : List ℕ) (ports : PortAllocator)
    → SamePorts before ports
    → SamePorts before (evaluate_all es ports).1
evaluate_all-keeps [] before ports h = h
evaluate_all-keeps (e ∷ es) before ports h =
    next-SamePorts before (evaluate_all es) (evaluate e ports)
      (evaluate-keeps (
        closed_after-SamePorts ports.reserved e (open_session e ports)
          (open_session-Held e ports h.1)))
      (λ t k. evaluate_all-keeps es before t k)
  where
    evaluate-keeps :
        SamePorts ports.reserved (evaluate e ports).1 → SamePorts before (evaluate e ports).1
    evaluate-keeps k = (λ p. k.0 p ∙ h.0 p, k.1)

-- For a valid port allocator: a sequence of evaluations of candidates, in each of which the engine may
-- be missing, the memory short, the launches may do anything and fail, the server may not start, and
-- processes may outlive their stop, leaves exactly the ports reserved that were reserved before it.
pub evaluate_all-SamePorts :
    (es : List Evaluation) (ports : PortAllocator) (p : ℕ)
    → IsValid ports
    → mem_nat p (evaluate_all es ports).1.reserved ≡ mem_nat p ports.reserved
evaluate_all-SamePorts es ports p v =
    (evaluate_all-keeps es ports.reserved ports (λ q. refl, v)).0 p
