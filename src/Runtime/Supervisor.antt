-- ===== src/Runtime/Supervisor.antt =====
-- src/servepilot/runtime/supervisor.py: the life of a deployment, on its replica set, its flags and its
-- state file. Its awaits end or raise as a script says; what the requests and the health checker do
-- while it serves is a function on the router.
pub mod Cleanup
use open_baseten_inference.Prelude.{Bool, true, false, not, ◌&&◌, ◌||◌, List, if◌then◌else◌}
use open_baseten_inference.Runtime.Router.{ReplicaRouter}
use open_baseten_inference.Runtime.Launch.{ReplicaSet, LaunchEvent, launch_run, stop}

pub record Deployment : Type 0 where
  pub replica_set : ReplicaSet
  -- whether the tasks of the HTTP server and of the health checker are there, and the state file
  pub serving : Bool
  pub checking : Bool
  pub state_file : Bool
  pub ready : Bool

-- what the awaits of a run do: true where they end, false where they raise
pub record Script : Type 0 where
  pub launches : List LaunchEvent
  pub all_launched : Bool
  pub server_starts : Bool
  pub state_written : Bool
  -- what others do to the router until a shutdown is requested, or the wait is cancelled
  pub meanwhile : ReplicaRouter → ReplicaRouter
  pub stop_requested : Bool
  pub health_stops : Bool
  pub server_stops : Bool
  pub launcher_shut_down : Bool
  pub state_cleared : Bool

-- `ReplicaSet.start`, which stops the set where a launch fails
abbrev pub start_set : Script → ReplicaSet → ReplicaSet
start_set c s = if c.all_launched then launch_run c.launches s else stop (launch_run c.launches s)

-- `start`: whether it ends, and the deployment
unfoldable pub start : Script → Deployment → Bool × Deployment
start c d =
    let launched = record d { replica_set = start_set c d.replica_set } in
    let checked = record launched { serving = true; checking = true } in
    if not c.all_launched
    then (false, launched)
    else if not c.server_starts
    then (false, record launched { serving = true })
    else if not c.state_written
    then (false, checked)
    else (true, record checked { state_file = true; ready = true })

-- `shutdown`: an exception of the server's stop is suppressed
abbrev stop_set : Script → Deployment → Deployment
stop_set c d = record d {
  checking = false;
  serving = d.serving && not c.server_stops;
  replica_set = stop d.replica_set;
}

unfoldable pub shutdown : Script → Deployment → Bool × Deployment
shutdown c d =
    if not c.health_stops
    then (false, d)
    else if not c.launcher_shut_down
    then (false, stop_set c d)
    else if not c.state_cleared
    then (false, stop_set c d)
    else (true, record (stop_set c d) { state_file = false })

abbrev served : Script → Deployment → Deployment
served c d = record d {
  replica_set = record d.replica_set { router = c.meanwhile (d.replica_set).router };
}

-- `run`: start, wait, and shut down in any case
unfoldable pub run : Script → Deployment → Bool × Deployment
unfolding start shutdown
run c d =
    let (started, d₁) = start c d in
    let (ended, d₂) = shutdown c (if started then served c d₁ else d₁) in
    (started && (c.stop_requested && ended), d₂)
