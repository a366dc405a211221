-- ===== src/Runtime/Replicas/Restart.antt =====
-- runtime/replicas.py, `restart_replica`: the replica in the router after a restart.
use open_baseten_inference.Prelude.{
  ℕ, ◌≡◌, refl, sym, ap, subst, String, Option, none, some, List, [], ◌∷◌, ◌++◌, false, ==_refl,
  ==_iff, ◌==◌, eq_iff, str_eq, Bool-cases, if_cases, inl, inr, ◌∙◌, mem_nat, arith,
}
use open_baseten_inference.Prelude.Dict.{Dict, lookup, assign}
use open_baseten_inference.Schemas.Runtime.{ReplicaState, ReplicaStatus}
use open_baseten_inference.Runtime.Router.{
  ReplicaRouter, find_replica, remove_replica, add_replica, set_status, note_error,
}
use open_baseten_inference.Runtime.Replicas.{
  Relaunch, launch_failed, launch_aborted, not_ready, ready_aborted, ready, Ending, returned,
  failed, aborted, Listing, next_restarts, starting, after_first, replaced, put_in_place, re_added,
  relaunched, restart_replica,
}

lookup-assign {ℓ} :
    {V : Type ℓ} (d : Dict V) (key : String) (v : V) → lookup (assign d key v) key ≡ some v
lookup-assign [] key v = rw ((eq_iff key key).1 refl) refl
lookup-assign ((k, w) ∷ d) key v = elim (Bool-cases (str_eq k key)) [
  | inl e ↦ rw e (rw ((eq_iff key key).1 refl) refl)
  | inr e ↦ rw e (rw e (lookup-assign d key v))
]

-- The status that a restart ends with.
abbrev pub final_status : Option String → ReplicaStatus
final_status none = ReplicaStatus.healthy
final_status (some message) = ReplicaStatus.unhealthy

-- The name stands for the new object, which has the last status and counts `restarts` restarts.
pub record IsRestarted (id : String) (ref restarts : ℕ) (failure : Option String)
    (t : ReplicaRouter) : Type 0 where
  pub named : find_replica id t ≡ some ref
  pub status : (t.heap ref).status ≡ final_status failure
  pub counted : (t.heap ref).restarts ≡ restarts

-- Other tasks do not replace the replica or change the number of its restarts: only its own restart
-- does.
pub record LeavesAlone (id : String) (during : ReplicaRouter → ReplicaRouter) : Type 0 where
  pub same_name : (s : ReplicaRouter) → find_replica id (during s) ≡ find_replica id s
  pub same_restarts :
      (s : ReplicaRouter) (ref : ℕ)
      → find_replica id s ≡ some ref
      → ((during s).heap ref).restarts ≡ (s.heap ref).restarts

note_error-restarts :
    (e : Option String) (r : ReplicaState)
    → ((note_error e r).restarts ≡ r.restarts) × ((note_error e r).status ≡ r.status)
note_error-restarts none r = (refl, refl)
note_error-restarts (some e) r = (refl, refl)

starting-find_replica :
    (id base_url : String) (gpu_ids : List ℕ) (pid : Option ℕ) (restarts : ℕ) (s : ReplicaRouter)
    → let t = starting restarts (add_replica id base_url gpu_ids pid s) in
      (find_replica id t ≡ some s.next) × ((t.heap s.next).restarts ≡ restarts)
unfolding add_replica
starting-find_replica id base_url gpu_ids pid restarts s =
    (lookup-assign s.replicas id s.next, rw (==_refl s.next) refl)

set_status-IsRestarted :
    (id : String) (failure error : Option String) (s : ReplicaRouter) (ref : ℕ)
    → find_replica id s ≡ some ref
    → IsRestarted id ref
        (s.heap ref).restarts
        failure
        (set_status id (final_status failure) error s)
unfolding set_status
set_status-IsRestarted id failure error s ref e =
    let noted = note_error-restarts error (record (s.heap ref) { status = final_status failure }) in
    rw (e, set_status)
      (record { named = e; status = rw (==_refl ref) noted.1; counted = rw (==_refl ref) noted.0 })

-- The list after a restart whose process got ready: the new object in the place of the old one, or
-- the old one was not there any more.
abbrev pub Listed : Listing → Ending → List ℕ → Type 0
Listed l returned rs =
    (before : List ℕ) × (after : List ℕ) × (l.replicas ≡ before ++ l.old ∷ after)
    × (rs ≡ before ++ l.fresh ∷ after)
    × (mem_nat l.old before ≡ false)
Listed l (failed message) rs = ⊥
Listed l aborted rs = (mem_nat l.old l.replicas ≡ false) × (rs ≡ l.replicas)

abbrev Replaced : ℕ → ℕ → List ℕ → Option (List ℕ) → Type 0
Replaced old fresh rs none = mem_nat old rs ≡ false
Replaced old fresh rs (some out) =
    (before : List ℕ) × (after : List ℕ) × (rs ≡ before ++ old ∷ after)
    × (out ≡ before ++ fresh ∷ after)
    × (mem_nat old before ≡ false)

replaced-Replaced : (old fresh : ℕ) (rs : List ℕ) → Replaced old fresh rs (replaced old fresh rs)
replaced-Replaced old fresh [] = refl
replaced-Replaced old fresh (r ∷ rs) =
    if_cases (Replaced old fresh (r ∷ rs)) (r == old) {x = some (fresh ∷ rs)}
      {y = after_first r (replaced old fresh rs)}
      (λ e. ([], rs, ap (λ n. n ∷ rs) ((==_iff r old).0 e), refl, refl))
      (λ e. passed e (replaced old fresh rs) (replaced-Replaced old fresh rs))
  where
    passed :
        (r == old) ≡ false
        → (o : Option (List ℕ)) → Replaced old fresh rs o
        → Replaced old fresh (r ∷ rs) (after_first r o)
    passed e none h = ground arith
    passed e (some out) (before, after, a, b, c) =
        (r ∷ before, after, ap (λ xs. r ∷ xs) a, ap (λ xs. r ∷ xs) b, ground arith)

put_in_place-Listed :
    (l : Listing) (o : Option (List ℕ)) (s : ReplicaRouter)
    → Replaced l.old l.fresh l.replicas o
    → Listed l (put_in_place o l.replicas s).0 (put_in_place o l.replicas s).2
      × ((put_in_place o l.replicas s).1 ≡ s)
put_in_place-Listed l none s h = ((h, refl), refl)
put_in_place-Listed l (some rs) s h = (h, refl)

-- What a restart comes to, from the router without the replica, `removed`: where the launch ends by
-- another exception, the replica stays removed; where the wait for readiness does, its name stands for
-- the new object; a failure is raised and leaves it unhealthy; else it is healthy, and the list has the
-- new object.
abbrev pub Ended :
    String → ℕ → ℕ → Listing → ReplicaRouter → Relaunch → Ending × ReplicaRouter × List ℕ → Type 0
Ended id ref restarts l removed launch_aborted (e, t, rs) =
    (e ≡ aborted) × (t ≡ removed) × (rs ≡ l.replicas)
Ended id ref restarts l removed (ready_aborted pid) (e, t, rs) =
    (e ≡ aborted)
    × (find_replica id t ≡ some ref)
    × ((t.heap ref).restarts ≡ restarts)
    × (rs ≡ l.replicas)
Ended id ref restarts l removed (launch_failed message) (e, t, rs) =
    (e ≡ failed message) × IsRestarted id ref restarts (some message) t × (rs ≡ l.replicas)
Ended id ref restarts l removed (not_ready pid message) (e, t, rs) =
    (e ≡ failed message) × IsRestarted id ref restarts (some message) t × (rs ≡ l.replicas)
Ended id ref restarts l removed (ready pid) (e, t, rs) =
    IsRestarted id ref restarts none t × Listed l e rs

module _ (id base_url : String) (gpu_ids : List ℕ) (restarts : ℕ) (l : Listing)
    (readying : ReplicaRouter → ReplicaRouter) (alone : LeavesAlone id readying)
    (s : ReplicaRouter) where
  -- the object that was added, after what the other tasks did
  readied :
      (pid : Option ℕ)
      → let t = readying (re_added id base_url gpu_ids restarts pid s) in
        (find_replica id t ≡ some s.next) × ((t.heap s.next).restarts ≡ restarts)
  readied pid =
      let (named, counted) = starting-find_replica id base_url gpu_ids pid restarts s in
      let t = re_added id base_url gpu_ids restarts pid s in
      (alone.same_name t ∙ named, alone.same_restarts t s.next named ∙ counted)

  failed-IsRestarted :
      (message : String) (t : ReplicaRouter)
      → (find_replica id t ≡ some s.next) × ((t.heap s.next).restarts ≡ restarts)
      → IsRestarted id s.next restarts
          (some message)
          (set_status id ReplicaStatus.unhealthy (some message) t)
  failed-IsRestarted message t (named, counted) =
      rw counted at (set_status-IsRestarted id (some message) (some message) t s.next named)

  relaunched-Ended :
      (relaunch : Relaunch)
      → Ended id s.next restarts l s relaunch
          (relaunched id base_url gpu_ids restarts l readying relaunch s)
  relaunched-Ended launch_aborted = (refl, refl, refl)
  relaunched-Ended (launch_failed message) = (
    refl,
    failed-IsRestarted message (re_added id base_url gpu_ids restarts none s)
        (starting-find_replica id base_url gpu_ids none restarts s),
    refl,
  )
  relaunched-Ended (not_ready pid message) = (
    refl,
    failed-IsRestarted message (readying (re_added id base_url gpu_ids restarts (some pid) s))
        (readied (some pid)),
    refl,
  )
  relaunched-Ended (ready_aborted pid) =
      let (named, counted) = readied (some pid) in (refl, named, counted, refl)
  relaunched-Ended (ready pid) =
      let t = readying (re_added id base_url gpu_ids restarts (some pid) s) in
      let (named, counted) = readied (some pid) in
      let (listed, same) =
        put_in_place-Listed l (replaced l.old l.fresh l.replicas)
          (set_status id ReplicaStatus.healthy none t)
          (replaced-Replaced l.old l.fresh l.replicas) in
      (
        subst (IsRestarted id s.next restarts none) (sym same)
            (rw counted at (set_status-IsRestarted id none none t s.next named)),
        listed,
      )

-- After a restart the replica's name stands for the object that was added, which counts one restart
-- more than the one it replaces, or 1. It is healthy when the new process got ready, and the set's list
-- then has the new object in the place of the old one, unless the old one was not there any more. When
-- the launch fails or the process does not get ready, the failure is raised and the replica is unhealthy,
-- not stopped, so that it may be restarted again, and the list is as it was. Where the launch ends by
-- another exception the replica stays out of the router; where the wait for readiness does, its name
-- stands for the new object. Other tasks may run while it launches and gets ready, but those of the
-- second wait do not replace it.
pub restart_replica-Ended :
    (id base_url : String) (gpu_ids : List ℕ) (l : Listing) (relaunch : Relaunch)
    (launching readying : ReplicaRouter → ReplicaRouter) (s : ReplicaRouter)
    → LeavesAlone id readying
    → let removed = launching (remove_replica id s) in
      Ended id removed.next
        (next_restarts (find_replica id s) s)
        l
        removed
        relaunch
        (restart_replica id base_url gpu_ids l relaunch launching readying s)
unfolding restart_replica
restart_replica-Ended id base_url gpu_ids l relaunch launching readying s alone =
    relaunched-Ended id base_url gpu_ids (next_restarts (find_replica id s) s) l readying alone
      (launching (remove_replica id s)) relaunch
