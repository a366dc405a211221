-- ===== src/Examples/Planner.antt =====
-- planner/gpu_groups.py and hardware/topology.py on four GPUs, with NVLink between 0 and 2 and
-- between 1 and 3.
use open_baseten_inference.Prelude.{
  Bool, false, ℕ, ◌≡◌, refl, String, ◌&&◌, ◌||◌, none, some, List, [], ◌∷◌, arith, if◌then◌else◌,
  ◌==◌,
}
use open_baseten_inference.Schemas.Hardware.{
  GpuDevice, HardwareSnapshot, build_topology, topology_edge, edge, edge_score, topology_score,
  find_edge, parse_relationship, all_edges, sorted_set,
}
use open_baseten_inference.Schemas.Hardware.Pairs.{edge-build_topology}
use open_baseten_inference.Planner.Groups.Local.{OneMachineEach, plan-OneMachineEach}
use open_baseten_inference.Planner.Groups.{
  Node, plan, nodes_of, per_node, plan_together, exhaustive, recurse, combinations, sorted, tidy,
  partition_score, group_score, pairs_score, pair_score, node_in,
}
use open_baseten_inference.Planner.Groups.Together.{Planned, plan_together-Planned}

abbrev gib_80 : ℕ
gib_80 = 85899345920

abbrev device : ℕ → GpuDevice
device i = record {
  index = i;
  name = "A10";
  total_memory_bytes = gib_80;
  free_memory_bytes = gib_80;
  node_id = none;
}

abbrev pcie : ℕ → ℕ → String
pcie a b = "SYS"

abbrev links : ℕ → ℕ → ℕ
links a b = if ((a == 0) && (b == 2)) || ((a == 1) && (b == 3)) then 4 else 0

abbrev no_switch : ℕ → ℕ
no_switch i = 0

abbrev gpus : List ℕ
gpus = 3 ∷ 1 ∷ 0 ∷ 2 ∷ []

abbrev machine : HardwareSnapshot
machine = record {
  gpus = device 0 ∷ device 1 ∷ device 2 ∷ device 3 ∷ [];
  topology = build_topology gpus pcie links no_switch;
  nodes = [];
}

-- the pairs with NVLink make the groups
pairs_planned : plan_together machine 2 2 gpus ≡ some ((0 ∷ 2 ∷ []) ∷ (1 ∷ 3 ∷ []) ∷ [])
unfolding plan_together exhaustive recurse combinations sorted tidy partition_score group_score
    pairs_score pair_score node_in build_topology edge edge_score topology_score find_edge
    parse_relationship all_edges sorted_set
pairs_planned = refl

plan_together-Planned_example : Planned 2 2 gpus (plan_together machine 2 2 gpus)
plan_together-Planned_example =
    plan_together-Planned machine 2 2 (omega arith) gpus (refl, (refl, (refl, (refl, tt))))

edge-build_topology_example :
    let t = build_topology gpus pcie links no_switch in
    (edge t 0 2 ≡ some (topology_edge pcie no_switch links 0 2)) × (edge t 2 0 ≡ edge t 0 2)
edge-build_topology_example =
    edge-build_topology gpus pcie links no_switch 0 2 (omega arith) refl refl

-- two machines with three GPUs each: a group of two on each
abbrev cluster : HardwareSnapshot
cluster = record machine {
  gpus =
      record {
        index = 0;
        name = "A10";
        total_memory_bytes = gib_80;
        free_memory_bytes = gib_80;
        node_id = some "a";
      }
      ∷ record {
        index = 1;
        name = "A10";
        total_memory_bytes = gib_80;
        free_memory_bytes = gib_80;
        node_id = some "b";
      }
      ∷ record {
        index = 2;
        name = "A10";
        total_memory_bytes = gib_80;
        free_memory_bytes = gib_80;
        node_id = some "a";
      }
      ∷ record {
        index = 3;
        name = "A10";
        total_memory_bytes = gib_80;
        free_memory_bytes = gib_80;
        node_id = some "b";
      }
      ∷ record {
        index = 4;
        name = "A10";
        total_memory_bytes = gib_80;
        free_memory_bytes = gib_80;
        node_id = some "a";
      }
      ∷ record {
        index = 5;
        name = "A10";
        total_memory_bytes = gib_80;
        free_memory_bytes = gib_80;
        node_id = some "b";
      }
      ∷ [];
}

abbrev any_order : Node → Node → Bool
any_order n m = false

abbrev six : List ℕ
six = 0 ∷ 1 ∷ 2 ∷ 3 ∷ 4 ∷ 5 ∷ []

plan-OneMachineEach_example : OneMachineEach cluster 2 2 (plan any_order cluster 2 2 six false)
plan-OneMachineEach_example =
    plan-OneMachineEach any_order cluster 2 six (refl, (refl, (refl, (refl, (refl, (refl, tt)))))) 2
      (omega arith)

-- the plan of it: the groups are local, and there are two of them
cluster_planned : (groups : List (List ℕ)) × (plan any_order cluster 2 2 six false ≡ some groups)
unfolding plan plan_together exhaustive recurse combinations sorted tidy partition_score group_score
    pairs_score pair_score node_in build_topology edge edge_score topology_score find_edge
    parse_relationship all_edges sorted_set nodes_of per_node
cluster_planned = (_, refl)
