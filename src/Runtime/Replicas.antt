-- ===== src/Runtime/Replicas.antt =====
-- src/servepilot/runtime/replicas.py: what `restart_replica` does to the router and to the set's list of
-- replicas. What the new process comes to is given by a `Relaunch`, and what other tasks do to the
-- router while it is launched and while it gets ready by functions on routers. Building its command
-- line and terminating the old process are left out.
pub mod Restart
use open_baseten_inference.Prelude.{
  ℕ, ◌+◌, ◌==◌, String, Option, none, some, List, [], ◌∷◌, if◌then◌else◌,
}
use open_baseten_inference.Schemas.Runtime.{ReplicaState, ReplicaStatus}
use open_baseten_inference.Runtime.Router.{
  ReplicaRouter, find_replica, remove_replica, add_replica, set_status, update,
}

-- What the launch and the wait for readiness come to; a failure has its message. The launch may also end
-- by an exception that is no `LaunchError`, and both by a cancellation.
pub data Relaunch : Type 0 where
  launch_failed : String → Relaunch
  launch_aborted : Relaunch
  not_ready : ℕ → String → Relaunch
  ready_aborted : ℕ → Relaunch
  ready : ℕ → Relaunch

-- a return, a `ReplicaLaunchError` with its message, or another exception
pub data Ending : Type 0 where
  returned : Ending
  failed : String → Ending
  aborted : Ending

-- `previous.restarts + 1`, or 1
abbrev pub next_restarts : Option ℕ → ReplicaRouter → ℕ
next_restarts none s = 1
next_restarts (some ref) s = (s.heap ref).restarts + 1

-- `state.status = STARTING` and `state.restarts = restarts`, on the object that was re_added
abbrev pub starting : ℕ → ℕ × ReplicaRouter → ReplicaRouter
starting restarts (ref, s) = record s {
  heap = update ref (λ r. record r { status = ReplicaStatus.starting; restarts = restarts }) s.heap;
}

-- the replicas of the set, as objects: `old` and `fresh` are the replaced one and the new one
pub record Listing : Type 0 where
  pub old : ℕ
  pub fresh : ℕ
  pub replicas : List ℕ

abbrev pub after_first : ℕ → Option (List ℕ) → Option (List ℕ)
after_first r none = none
after_first r (some rs) = some (r ∷ rs)

-- `self.replicas[self.replicas.index(replica)] = fresh`; none is the `ValueError`
abbrev pub replaced : ℕ → ℕ → List ℕ → Option (List ℕ)
replaced old fresh [] = none
replaced old fresh (r ∷ rs) =
    let rest = after_first r (replaced old fresh rs) in if r == old then some (fresh ∷ rs) else rest

abbrev pub put_in_place : Option (List ℕ) → List ℕ → ReplicaRouter → Ending × ReplicaRouter × List ℕ
put_in_place none replicas s = (aborted, s, replicas)
put_in_place (some rs) replicas s = (returned, s, rs)

-- the end, with the failure if there is one; the list is read when it comes to it
abbrev pub settled :
    String → Option String → Listing → ReplicaRouter → Ending × ReplicaRouter × List ℕ
settled id none l s =
    put_in_place (replaced l.old l.fresh l.replicas) l.replicas
      (set_status id ReplicaStatus.healthy none s)
settled id (some message) l s =
    (failed message, set_status id ReplicaStatus.unhealthy (some message) s, l.replicas)

abbrev pub re_added : String → String → List ℕ → ℕ → Option ℕ → ReplicaRouter → ReplicaRouter
re_added id base_url gpu_ids restarts pid s =
    starting restarts (add_replica id base_url gpu_ids pid s)

-- from the launch on; after a launch that fails nothing is awaited
abbrev pub relaunched :
    String
    → String
    → List ℕ
    → ℕ
    → Listing
    → (ReplicaRouter → ReplicaRouter)
    → Relaunch
    → ReplicaRouter
    → Ending × ReplicaRouter × List ℕ
relaunched id base_url gpu_ids restarts l readying launch_aborted s = (aborted, s, l.replicas)
relaunched id base_url gpu_ids restarts l readying (launch_failed message) s =
    settled id (some message) l (re_added id base_url gpu_ids restarts none s)
relaunched id base_url gpu_ids restarts l readying (not_ready pid message) s =
    settled id (some message) l (readying (re_added id base_url gpu_ids restarts (some pid) s))
relaunched id base_url gpu_ids restarts l readying (ready_aborted pid) s =
    (aborted, readying (re_added id base_url gpu_ids restarts (some pid) s), l.replicas)
relaunched id base_url gpu_ids restarts l readying (ready pid) s =
    settled id none l (readying (re_added id base_url gpu_ids restarts (some pid) s))

unfoldable pub restart_replica :
    String
    → String
    → List ℕ
    → Listing
    → Relaunch
    → (ReplicaRouter → ReplicaRouter)
    → (ReplicaRouter → ReplicaRouter)
    → ReplicaRouter
    → Ending × ReplicaRouter × List ℕ
restart_replica id base_url gpu_ids l relaunch launching readying s =
    relaunched id base_url gpu_ids (next_restarts (find_replica id s) s) l readying relaunch
      (launching (remove_replica id s))
