-- ===== src/Runtime/Launch.antt =====
-- src/servepilot/runtime/replicas.py: the start and the stop of a set of replicas, on its ports and its
-- router. The tasks of `start` interleave at their awaits: an event is what one of them does between
-- two awaits. The set has a router; processes and command lines are left out.
pub mod Returned
use open_baseten_inference.Prelude.{ℕ, String, Option, none, some, List, [], ◌∷◌, ◌++◌}
use open_baseten_inference.Schemas.Runtime.{ReplicaStatus}
use open_baseten_inference.Runtime.Ports.{PortAllocator, CanBind, allocate, release}
use open_baseten_inference.Runtime.Router.{
  ReplicaRouter, add_replica, remove_replica, set_status, update,
}

pub record ReplicaSet : Type 0 where
  pub ports : PortAllocator
  pub router : ReplicaRouter
  -- the ids of `replicas`
  pub replicas : List String
  pub allocated_ports : List ℕ

-- `begin` takes a port for a replica, `launched` adds it to the router, and it becomes ready or not;
-- `collected` puts it into `replicas`
pub data LaunchEvent : Type 0 where
  begin : CanBind → LaunchEvent
  launched : String → String → List ℕ → ℕ → LaunchEvent
  became_ready collected : String → LaunchEvent
  never_ready : String → String → LaunchEvent

-- `ports.allocate()`, whose error leaves the list of ports as it is
abbrev pub with_port : ReplicaSet → Option ℕ × PortAllocator → ReplicaSet
with_port s (none, ports) = record s { ports = ports }
with_port s (some port, ports) = record s {
  ports = ports;
  allocated_ports = s.allocated_ports ++ port ∷ [];
}

abbrev added : ReplicaSet → ℕ × ReplicaRouter → ReplicaSet
added s (ref, router) = record s {
  router = record router {
    heap = update ref (λ r. record r { status = ReplicaStatus.starting }) router.heap;
  };
}

-- `_launch_one`, and the lists of `start`
unfoldable pub launch_step : LaunchEvent → ReplicaSet → ReplicaSet
unfolding allocate
launch_step (begin can_bind) s = with_port s (allocate can_bind s.ports)
launch_step (launched id base_url gpu_ids pid) s =
    added s (add_replica id base_url gpu_ids (some pid) s.router)
launch_step (became_ready id) s = record s {
  router = set_status id ReplicaStatus.healthy none s.router;
}
launch_step (never_ready id message) s = record s {
  router = set_status id ReplicaStatus.stopped (some message) s.router;
}
launch_step (collected id) s = record s { replicas = s.replicas ++ id ∷ [] }

abbrev pub launch_run : List LaunchEvent → ReplicaSet → ReplicaSet
launch_run [] s = s
launch_run (e ∷ es) s = launch_run es (launch_step e s)

abbrev pub withdrawn : List String → ReplicaRouter → ReplicaRouter
withdrawn [] router = router
withdrawn (id ∷ ids) router =
    withdrawn ids (remove_replica id (set_status id ReplicaStatus.stopped none router))

abbrev pub given_back : List ℕ → PortAllocator → PortAllocator
given_back [] ports = ports
given_back (port ∷ rest) ports = given_back rest (release port ports)

-- `stop`
unfoldable pub stop : ReplicaSet → ReplicaSet
unfolding release
stop s = record s {
  router = withdrawn s.replicas s.router;
  ports = given_back s.allocated_ports s.ports;
  allocated_ports = [];
}
