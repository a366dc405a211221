-- ===== src/Schemas/Hardware.antt =====
-- src/servepilot/schemas/hardware.py and src/servepilot/hardware/topology.py: the GPUs of a machine
-- and how they are connected. The fields that the group planner does not read are left out, and a
-- link count is a natural number.
pub mod Pairs
use open_baseten_inference.Prelude.{
  ℕ, ◌+◌, String, Bool, true, false, ◌&&◌, Option, none, some, List, [], ◌∷◌, ◌++◌, ltb, ◌==◌,
  if◌then◌else◌, str_eq, max, min, keep, mem_nat, any, length, map,
}

pub data TopologyRelationship : Type 0 where
  nvlink : TopologyRelationship
  pix : TopologyRelationship
  pxb : TopologyRelationship
  phb : TopologyRelationship
  node : TopologyRelationship
  sys : TopologyRelationship
  network : TopologyRelationship
  unknown : TopologyRelationship

-- the values of the enum
abbrev pub relationship_value : TopologyRelationship → String
relationship_value nvlink = "NV"
relationship_value pix = "PIX"
relationship_value pxb = "PXB"
relationship_value phb = "PHB"
relationship_value node = "NODE"
relationship_value sys = "SYS"
relationship_value network = "NET"
relationship_value unknown = "UNKNOWN"

-- `TopologyRelationship(value)`; a value that is none of the enum's counts as unknown
unfoldable pub parse_relationship : String → TopologyRelationship
parse_relationship s =
    if str_eq s "NV"
    then nvlink
    else if str_eq s "PIX"
    then pix
    else if str_eq s "PXB"
    then pxb
    else if str_eq s "PHB"
    then phb
    else if str_eq s "NODE"
    then node
    else if str_eq s "SYS"
    then sys
    else if str_eq s "NET"
    then network
    else unknown

-- `RELATIONSHIP_SCORES`
abbrev pub relationship_score : TopologyRelationship → ℕ
relationship_score nvlink = 100
relationship_score pix = 40
relationship_score pxb = 30
relationship_score phb = 20
relationship_score node = 10
relationship_score sys = 5
relationship_score unknown = 1
relationship_score network = 0

pub record GpuDevice : Type 0 where
  pub index : ℕ
  pub name : String
  pub total_memory_bytes : ℕ
  pub free_memory_bytes : ℕ
  pub node_id : Option String

pub record TopologyEdge : Type 0 where
  pub gpu_a : ℕ
  pub gpu_b : ℕ
  pub relationship : String
  pub nvlink_detected : Bool
  pub nvlink_link_count : Option ℕ

abbrev or_zero : Option ℕ → ℕ
or_zero none = 0
or_zero (some n) = n

unfoldable pub edge_score : TopologyEdge → ℕ
edge_score e =
    let base = relationship_score (parse_relationship e.relationship) in
    if e.nvlink_detected
    then max base (relationship_score nvlink) + or_zero e.nvlink_link_count
    else base

pub record GpuTopology : Type 0 where
  pub edges : List TopologyEdge
  pub available : Bool

-- the loop of `edge`, on the pair in order
unfoldable pub find_edge : ℕ → ℕ → List TopologyEdge → Option TopologyEdge
find_edge lo hi [] = none
find_edge lo hi (e ∷ es) =
    let rest = find_edge lo hi es in if (e.gpu_a == lo) && (e.gpu_b == hi) then some e else rest

unfoldable pub edge : GpuTopology → ℕ → ℕ → Option TopologyEdge
edge t a b = if ltb a b then find_edge a b t.edges else find_edge b a t.edges

abbrev scored : Option TopologyEdge → ℕ
scored none = relationship_score unknown
scored (some e) = edge_score e

unfoldable pub topology_score : GpuTopology → ℕ → ℕ → ℕ
topology_score t a b = scored (edge t a b)

unfoldable pub has_nvlink : GpuTopology → Bool
has_nvlink t = any (λ e. e.nvlink_detected) t.edges

pub record HardwareSnapshot : Type 0 where
  pub gpus : List GpuDevice
  pub topology : GpuTopology
  -- the GPU indices of each of `nodes`
  pub nodes : List (List ℕ)

abbrev pub has_gpus : List ℕ → Bool
has_gpus [] = false
has_gpus (i ∷ is) = true

abbrev pub is_cluster : HardwareSnapshot → Bool
is_cluster s = ltb 1 (length s.nodes)

-- what `select` does to the GPUs, the edges and the nodes
unfoldable pub select : List ℕ → HardwareSnapshot → HardwareSnapshot
select wanted s = record {
  gpus = keep (λ g. mem_nat g.index wanted) s.gpus;
  topology = record s.topology {
    edges = keep (λ e. mem_nat e.gpu_a wanted && mem_nat e.gpu_b wanted) s.topology.edges;
  };
  nodes = keep has_gpus (map (keep (λ i. mem_nat i wanted)) s.nodes);
}

-- hardware/topology.py: the NVML level codes
unfoldable pub ancestor_to_relationship : Option ℕ → TopologyRelationship
ancestor_to_relationship none = unknown
ancestor_to_relationship (some level) =
    if level == 0
    then pix
    else if level == 10
    then pix
    else if level == 20
    then pxb
    else if level == 30
    then phb
    else if level == 40
    then node
    else if level == 50
    then sys
    else unknown

-- the links of a pair: its own, or those that both have to an NVSwitch; a missing key reads 0
abbrev pub link_count : (ℕ → ℕ → ℕ) → (ℕ → ℕ) → ℕ → ℕ → ℕ
link_count nvlink_counts nvswitch_links a b =
    if ltb 0 (nvswitch_links a) && ltb 0 (nvswitch_links b)
    then max (nvlink_counts a b) (min (nvswitch_links a) (nvswitch_links b))
    else nvlink_counts a b

abbrev pub topology_edge : (ℕ → ℕ → String) → (ℕ → ℕ) → (ℕ → ℕ → ℕ) → ℕ → ℕ → TopologyEdge
topology_edge pcie nvswitch_links nvlink_counts a b =
    let links = link_count nvlink_counts nvswitch_links a b in
    record {
      gpu_a = a;
      gpu_b = b;
      relationship = if ltb 0 links then "NV" else pcie a b;
      nvlink_detected = ltb 0 links;
      nvlink_link_count = if ltb 0 links then some links else none;
    }

abbrev pub edges_from : (ℕ → ℕ → TopologyEdge) → ℕ → List ℕ → List TopologyEdge
edges_from f a [] = []
edges_from f a (b ∷ bs) = f a b ∷ edges_from f a bs

-- the two loops over the sorted indices
unfoldable pub all_edges : (ℕ → ℕ → TopologyEdge) → List ℕ → List TopologyEdge
all_edges f [] = []
all_edges f (a ∷ rest) = edges_from f a rest ++ all_edges f rest

-- `sorted(set(...))`
abbrev pub insert_index : ℕ → List ℕ → List ℕ
insert_index x [] = x ∷ []
insert_index x (y ∷ ys) =
    if ltb x y then x ∷ y ∷ ys else if x == y then y ∷ ys else y ∷ insert_index x ys

unfoldable pub sorted_set : List ℕ → List ℕ
sorted_set [] = []
sorted_set (x ∷ xs) = insert_index x (sorted_set xs)

-- `nvswitch_links` that is missing or empty is 0 everywhere
unfoldable pub build_topology : List ℕ → (ℕ → ℕ → String) → (ℕ → ℕ → ℕ) → (ℕ → ℕ) → GpuTopology
unfolding all_edges sorted_set
build_topology gpu_indices pcie nvlink_counts nvswitch_links = record {
  edges = all_edges (topology_edge pcie nvswitch_links nvlink_counts) (sorted_set gpu_indices);
  available = true;
}
