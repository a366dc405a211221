-- ===== src/Planner/CrossNode.antt =====
-- src/servepilot/planner/candidates.py: `_cross_node_candidates`, layouts of one replica that spans the
-- machines of a cluster.
use open_baseten_inference.Prelude.{
  ℕ, ◌*◌, Bool, true, false, not, ◌&&◌, Option, none, some, List, [], ◌∷◌, ◌++◌, map, keep, take,
  length, ltb, ◌==◌, if◌then◌else◌, Floats,
}
use open_baseten_inference.Schemas.Hardware.{GpuDevice, HardwareSnapshot}
use open_baseten_inference.Schemas.Plan.{ModelProfile, MemoryEstimate}
use open_baseten_inference.Schemas.Tuning.{CandidatePlan}
use open_baseten_inference.Planner.Groups.{Node, nodes_of, on_node, sorted}
use open_baseten_inference.Planner.Memory.{estimate_memory, least}
use open_baseten_inference.Planner.Pruning.{check_tp_divisibility, check_memory}
use open_baseten_inference.Planner.Candidates.{
  Answer, answer, refused, and_with, other_error, InferenceEngine, plan_id, max_num_seqs, Excluded,
  not_supported, needs_memory, single_copy, no_shape, no_ray_backend, Planning, nothing, joined,
}
use open_baseten_inference.Planner.Inputs.{Inputs, gpus_at, chosen_engine}

-- a node with an id
abbrev is_named : Node → Bool
is_named (some (some id)) = true
is_named _ = false

abbrev pub named_nodes : (Node → Node → Bool) → HardwareSnapshot → List Node
named_nodes before s = keep is_named (nodes_of before s (map (λ (g : GpuDevice). g.index) s.gpus))

abbrev pub gpus_on : HardwareSnapshot → Node → List ℕ
gpus_on s n = sorted (on_node s n (map (λ (g : GpuDevice). g.index) s.gpus))

abbrev fewest : List ℕ → ℕ
fewest [] = 0
fewest (n ∷ ns) = least n ns

-- `min(len(by_node[n]) for n in node_ids)`
abbrev pub gpus_per_node : HardwareSnapshot → List Node → ℕ
gpus_per_node s ns = fewest (map (λ n. length (gpus_on s n)) ns)

abbrev pub all_gpus : HardwareSnapshot → ℕ → List Node → List ℕ
all_gpus s per [] = []
all_gpus s per (n ∷ ns) = take per (gpus_on s n) ++ all_gpus s per ns

-- the sizes of the tensor and of the pipeline parallelism
abbrev pub shapes : ModelProfile → ℕ → ℕ → List (ℕ × ℕ)
shapes model tp pp =
    (tp, pp) ∷ (if check_tp_divisibility model (tp * pp) then [] else (tp * pp, 1) ∷ [])

abbrev pub wanted_shapes : Option ℕ → List (ℕ × ℕ) → List (ℕ × ℕ)
wanted_shapes none all = all
wanted_shapes (some tp) all = keep (λ (shape : ℕ × ℕ). shape.0 == tp) all

-- whether `--replicas` asks for more or fewer than one
abbrev pub other_than_one : Option ℕ → Bool
other_than_one none = false
other_than_one (some n) = not (n == 1)

module _ (F : Floats) where
  abbrev pub only_excluded : Excluded F → Answer (Planning F)
  only_excluded e = answer (record { candidates = []; excluded = e ∷ [] })

  module _ (i : Inputs F) (context : ℕ) where
    abbrev pub spanning : InferenceEngine F → List ℕ → ℕ → ℕ → MemoryEstimate F → CandidatePlan F
    spanning engine gpus tp pp estimate =
        let seqs = max_num_seqs F engine estimate.estimated_max_concurrency_p50 i.constraints in
        record {
          id = plan_id F engine.engine_name tp pp 1 "-ray";
          engine = engine.engine_name;
          gpu_groups = gpus ∷ [];
          tensor_parallel_size = tp;
          data_parallel_size = 1;
          pipeline_parallel_size = pp;
          replica_count = 1;
          expert_parallel_size = none;
          expert_parallel_enabled = false;
          dp_attention_enabled = false;
          distributed_backend = some "ray";
          context_length = context;
          memory_fraction = some estimate.memory_fraction;
          max_concurrency = some seqs;
          max_num_seqs = some seqs;
          launch_settings = i.launch_settings;
          estimated_memory = some estimate;
        }

    abbrev pub judged_across : InferenceEngine F → MemoryEstimate F → CandidatePlan F → Planning F
    judged_across engine estimate p =
        if check_memory F estimate
        then record { candidates = []; excluded = needs_memory p ∷ [] }
        else if not (engine.supports i.model p)
        then record { candidates = []; excluded = not_supported p ∷ [] }
        else record { candidates = p ∷ []; excluded = [] }

    abbrev pub estimated_across :
        InferenceEngine F → List ℕ → ℕ → ℕ → Option (MemoryEstimate F) → Answer (Planning F)
    estimated_across engine gpus tp pp none = refused other_error
    estimated_across engine gpus tp pp (some e) =
        answer (judged_across engine e (spanning engine gpus tp pp e))

    abbrev pub placed_across :
        InferenceEngine F → List ℕ → ℕ → ℕ → Option (List GpuDevice) → Answer (Planning F)
    placed_across engine gpus tp pp none = refused other_error
    placed_across engine gpus tp pp (some devices) = estimated_across engine gpus tp pp (
        estimate_memory F i.model devices tp (i.kv_for tp) context i.workload i.memory_cfg pp
          (i.constraints).memory_fraction)

    -- the loop over the shapes
    abbrev pub each_shape :
        HardwareSnapshot → InferenceEngine F → List ℕ → List (ℕ × ℕ) → Answer (Planning F)
    each_shape s engine gpus [] = answer (nothing F)
    each_shape s engine gpus ((tp, pp) ∷ rest) =
        let later = each_shape s engine gpus rest in
        if ltb 1 pp && not engine.supports_pipeline_parallel
        then later
        else and_with (placed_across engine gpus tp pp (gpus_at s.gpus gpus))
            (λ a. and_with later (λ b. answer (joined F a b)))

    -- the loop over the engines
    abbrev pub each_engine_across :
        HardwareSnapshot → List ℕ → List (ℕ × ℕ) → List (InferenceEngine F) → Answer (Planning F)
    each_engine_across s gpus all [] = answer (nothing F)
    each_engine_across s gpus all (e ∷ es) =
        let later = each_engine_across s gpus all es in
        if not (chosen_engine (i.constraints).engine e.engine_name)
        then later
        else and_with
            (if e.supports_ray_backend
              then each_shape s e gpus all
              else only_excluded (no_ray_backend e.engine_name))
            (λ a. and_with later (λ b. answer (joined F a b)))

    abbrev asked_size : Option ℕ → ℕ
    asked_size none = 0
    asked_size (some tp) = tp

    abbrev pub with_shapes : HardwareSnapshot → List ℕ → List (ℕ × ℕ) → Answer (Planning F)
    with_shapes s gpus [] =
        only_excluded (no_shape (asked_size (i.constraints).tensor_parallel_size))
    with_shapes s gpus (shape ∷ rest) = each_engine_across s gpus (shape ∷ rest) i.engines

    unfoldable pub cross_node_candidates :
        (Node → Node → Bool) → HardwareSnapshot → Answer (Planning F)
    unfolding nodes_of sorted estimate_memory
    cross_node_candidates before s =
        let ns = named_nodes before s in
        let per = gpus_per_node s ns in
        if ltb (length ns) 2
        then answer (nothing F)
        else if other_than_one (i.constraints).replica_count
        then only_excluded single_copy
        else with_shapes s (all_gpus s per ns)
            (wanted_shapes (i.constraints).tensor_parallel_size (shapes i.model per (length ns)))
