-- ===== src/Planner/Generation.antt =====
-- src/servepilot/planner/candidates.py: `generate_candidates` and `_rank`.
mod Room
pub mod Viability
mod Across
pub mod Viable
use open_baseten_inference.Prelude.{
  ℕ, zero, suc, ◌+◌, ◌*◌, ◌/◌, max, min, String, str_eq, Bool, true, false, not, ◌&&◌, ◌||◌, Option,
  none, some, List, [], ◌∷◌, ◌++◌, map, ltb, leb, ◌==◌, if◌then◌else◌, any, mem_nat, sum_by, Floats,
  sort_by,
}
use open_baseten_inference.Schemas.Benchmark.{Objective, throughput, latency, balanced}
use open_baseten_inference.Schemas.Hardware.{GpuDevice, HardwareSnapshot, is_cluster}
use open_baseten_inference.Schemas.Plan.{ModelProfile, MemoryEstimate, KvEstimate, TokenLengths}
use open_baseten_inference.Schemas.Tuning.{
  CandidatePlan, EngineName, vllm, sglang, fake, engine_eq, option_eq,
}
use open_baseten_inference.Planner.Groups.{plan, Node}
use open_baseten_inference.Planner.Memory.{MemoryModelConfig, estimate_memory, least}
use open_baseten_inference.Planner.Inputs.{Inputs, gpus_at, chosen_engine}
use open_baseten_inference.Planner.CrossNode.{cross_node_candidates}
use open_baseten_inference.Planner.Pruning.{
  divisors, check_tp_divisibility, check_ep_divisibility, check_context_length, check_memory,
  dedupe,
}
use open_baseten_inference.Planner.Candidates.{
  PlanError, Answer, answer, refused, and_with, configuration_error, no_viable_plan, other_error,
  PlanConstraints, InferenceEngine, select_gpus, resolve_context_length, plan_id, max_num_seqs,
  Variant, plain, expert_parallel, dp_attention, suffix_of, is_plain, is_attention, Excluded,
  heads_not_divisible, experts_not_divisible, not_supported, needs_memory, duplicate, Planning,
  nothing, joined,
}

-- the sizes of the nodes, in the order of `gpus_by_node`
abbrev counted : Option String → List (Option String × ℕ) → List (Option String × ℕ)
counted n [] = (n, 1) ∷ []
counted n ((m, k) ∷ rest) =
    let later = counted n rest in if option_eq str_eq n m then (m, k + 1) ∷ rest else (m, k) ∷ later

abbrev count_from : List (Option String × ℕ) → List GpuDevice → List (Option String × ℕ)
count_from sizes [] = sizes
count_from sizes (g ∷ gs) = count_from (counted g.node_id sizes) gs

abbrev pub node_sizes : List GpuDevice → List ℕ
node_sizes gs = map (λ (entry : Option String × ℕ). entry.1) (count_from [] gs)

abbrev pub flattened : List (List ℕ) → List ℕ
flattened [] = []
flattened (g ∷ gs) = g ++ flattened gs

module _ (F : Floats) where
  open F use {Float}

  module _ (i : Inputs F) (context : ℕ) where
    abbrev size_if : Bool → ℕ → Option ℕ
    size_if true tp = some tp
    size_if false tp = none

    -- the plan of a variant
    abbrev pub candidate :
        InferenceEngine F → ℕ → ℕ → List (List ℕ) → MemoryEstimate F → Variant F → CandidatePlan F
    candidate engine tp replicas groups estimate v =
        let seqs = max_num_seqs F engine estimate.estimated_max_concurrency_p50 i.constraints in
        record {
          id = plan_id F engine.engine_name tp 1 replicas (suffix_of F v);
          engine = engine.engine_name;
          gpu_groups = groups;
          tensor_parallel_size = tp;
          data_parallel_size = if is_attention F v then tp else 1;
          pipeline_parallel_size = 1;
          replica_count = replicas;
          expert_parallel_size = size_if (not (is_plain F v)) tp;
          expert_parallel_enabled = not (is_plain F v);
          dp_attention_enabled = is_attention F v;
          distributed_backend = none;
          context_length = context;
          memory_fraction = some estimate.memory_fraction;
          max_concurrency = size_if (not (seqs == 0)) (seqs * replicas);
          max_num_seqs = some seqs;
          launch_settings = i.launch_settings;
          estimated_memory = some estimate;
        }

    -- what becomes of a plan: excluded, or a candidate
    abbrev pub judged : InferenceEngine F → MemoryEstimate F → CandidatePlan F → Planning F
    judged engine estimate p =
        if not (engine.supports i.model p)
        then record { candidates = []; excluded = not_supported p ∷ [] }
        else if check_memory F estimate
        then record { candidates = []; excluded = needs_memory p ∷ [] }
        else record { candidates = p ∷ []; excluded = [] }

    abbrev pub judged_all :
        InferenceEngine F → ℕ → ℕ → List (List ℕ) → MemoryEstimate F → List (Variant F) → Planning F
    judged_all engine tp replicas groups estimate [] = nothing F
    judged_all engine tp replicas groups estimate (v ∷ vs) =
        joined F (judged engine estimate (candidate engine tp replicas groups estimate v))
          (judged_all engine tp replicas groups estimate vs)

    abbrev pub shards_experts : InferenceEngine F → ℕ → Bool
    shards_experts engine tp =
        (i.model).is_moe && ltb 1 tp && engine.supports_expert_parallel i.model

    abbrev pub variants : InferenceEngine F → ℕ → List (Variant F)
    variants engine tp =
        plain
          ∷ (if shards_experts engine tp && not (check_ep_divisibility i.model tp)
              then expert_parallel ∷ []
              else [])
        ++ (if (i.model).is_moe && ltb 1 tp && engine.supports_dp_attention i.model
            then dp_attention ∷ []
            else [])

    abbrev pub experts_excluded : InferenceEngine F → ℕ → Planning F
    experts_excluded engine tp =
        if shards_experts engine tp && check_ep_divisibility i.model tp
        then record { candidates = []; excluded = experts_not_divisible engine.engine_name tp ∷ [] }
        else nothing F

    -- the loop over the engines
    abbrev pub each_engine :
        ℕ → ℕ → List (List ℕ) → MemoryEstimate F → List (InferenceEngine F) → Planning F
    each_engine tp replicas groups estimate [] = nothing F
    each_engine tp replicas groups estimate (e ∷ es) =
        let rest = each_engine tp replicas groups estimate es in
        if chosen_engine (i.constraints).engine e.engine_name
        then joined F
            (joined F (experts_excluded e tp)
              (judged_all e tp replicas groups estimate (variants e tp)))
            rest
        else rest

    abbrev pub with_estimate :
        ℕ → ℕ → List (List ℕ) → Option (MemoryEstimate F) → Answer (Planning F)
    with_estimate tp replicas groups none = refused other_error
    with_estimate tp replicas groups (some e) = answer (each_engine tp replicas groups e i.engines)

    abbrev pub with_gpus : ℕ → ℕ → List (List ℕ) → Option (List GpuDevice) → Answer (Planning F)
    with_gpus tp replicas groups none = refused other_error
    with_gpus tp replicas groups (some gpus) = with_estimate tp replicas groups (
        estimate_memory F i.model gpus tp (i.kv_for tp) context i.workload i.memory_cfg 1
          (i.constraints).memory_fraction)

    abbrev pub with_groups : HardwareSnapshot → ℕ → ℕ → Option (List (List ℕ)) → Answer (Planning F)
    with_groups s tp replicas none = refused no_viable_plan
    with_groups s tp replicas (some groups) =
        with_gpus tp replicas groups (gpus_at s.gpus (flattened groups))

    -- `replicas`, or an error where more are asked for than fit
    abbrev pub replicas_of : Option ℕ → ℕ → Answer ℕ
    replicas_of none fit = answer fit
    replicas_of (some n) fit = if ltb fit n then refused configuration_error else answer n

    -- the body of the loop over the tensor-parallel sizes
    abbrev pub one_size : (Node → Node → Bool) → HardwareSnapshot → List ℕ → ℕ → Answer (Planning F)
    one_size before s ids tp =
        if check_tp_divisibility i.model tp
        then answer (record { candidates = []; excluded = heads_not_divisible tp ∷ [] })
        else and_with
            (replicas_of (i.constraints).replica_count (sum_by (λ n. n / tp) (node_sizes s.gpus)))
            (λ replicas. with_groups s tp replicas (plan before s tp replicas ids false))

    abbrev pub each_size :
        (Node → Node → Bool) → HardwareSnapshot → List ℕ → List ℕ → Answer (Planning F)
    each_size before s ids [] = answer (nothing F)
    each_size before s ids (tp ∷ tps) =
        and_with (one_size before s ids tp)
          (λ a. and_with (each_size before s ids tps) (λ b. answer (joined F a b)))

  abbrev engine_order : EngineName → ℕ
  engine_order fake = 0
  engine_order sglang = 1
  engine_order vllm = 2

  abbrev variant_order : CandidatePlan F → ℕ
  variant_order p = if p.expert_parallel_enabled || p.dp_attention_enabled then 1 else 0

  -- the key of `_rank` without the size
  abbrev tie_before : CandidatePlan F → CandidatePlan F → Bool
  tie_before p q =
      if not (p.pipeline_parallel_size == q.pipeline_parallel_size)
      then ltb p.pipeline_parallel_size q.pipeline_parallel_size
      else if not (variant_order p == variant_order q)
      then ltb (variant_order p) (variant_order q)
      else leb (engine_order p.engine) (engine_order q.engine)

  abbrev size_before : Objective → ℕ → ℕ → Bool
  size_before latency a b = ltb b a
  size_before _ a b = ltb a b

  abbrev pub ranks_before : Objective → CandidatePlan F → CandidatePlan F → Bool
  ranks_before objective p q =
      if p.tensor_parallel_size == q.tensor_parallel_size
      then tie_before p q
      else size_before objective p.tensor_parallel_size q.tensor_parallel_size

  -- `_rank`
  unfoldable pub rank : Objective → List (CandidatePlan F) → List (CandidatePlan F)
  unfolding sort_by
  rank objective plans = sort_by (ranks_before objective) plans

  -- the sizes to try on one machine: the divisors of its GPUs, or the one that is asked for
  abbrev pub sizes : Bool → Option ℕ → ℕ → Answer (List ℕ)
  sizes cluster none gpus = answer (divisors gpus)
  sizes cluster (some tp) gpus =
      if mem_nat tp (divisors gpus)
      then answer (tp ∷ [])
      else if ltb gpus tp && cluster
      then answer []
      else refused configuration_error

  abbrev pub least_size : List ℕ → Answer ℕ
  least_size [] = refused other_error
  least_size (n ∷ ns) = answer (least n ns)

  abbrev pub with_headroom : Option Float → MemoryModelConfig F → MemoryModelConfig F
  with_headroom none cfg = cfg
  with_headroom (some h) cfg = record cfg { headroom_fraction = h }

  -- the end of `generate_candidates`
  abbrev pub finished :
      Objective
      → List (Excluded F)
      → List (CandidatePlan F) × List (CandidatePlan F)
      → Answer (Planning F)
  finished objective excluded ([], dupes) = refused no_viable_plan
  finished objective excluded (p ∷ ps, dupes) =
      answer (record {
        candidates = rank objective (p ∷ ps);
        excluded = excluded ++ map duplicate dupes;
      })

  -- the inputs with the memory headroom that is asked for
  abbrev pub effective : Inputs F → Inputs F
  effective i = record i { memory_cfg = with_headroom (i.constraints).memory_headroom i.memory_cfg }

  abbrev pub no_engines : List (InferenceEngine F) → Bool
  no_engines [] = true
  no_engines (e ∷ es) = false

  abbrev pub no_candidates : List (CandidatePlan F) → Bool
  no_candidates [] = true
  no_candidates (p ∷ ps) = false

  -- layouts that span machines, where nothing fits inside one
  abbrev pub with_cross_node :
      (Node → Node → Bool) → Inputs F → HardwareSnapshot → ℕ → Planning F → Answer (Planning F)
  with_cross_node before i s context found =
      if is_cluster s && no_candidates found.candidates
      then and_with (cross_node_candidates F i context before s)
          (λ more. answer (joined F found more))
      else answer found

  abbrev pub after_context :
      (Node → Node → Bool) → Inputs F → HardwareSnapshot × List ℕ → ℕ → Answer (Planning F)
  after_context before i (s, ids) context = and_with (least_size (node_sizes s.gpus)) (λ gpus.
      and_with (sizes (is_cluster s) (i.constraints).tensor_parallel_size gpus) (λ tps.
        and_with
          (and_with (each_size i context before s ids tps) (with_cross_node before i s context))
          (λ found. finished i.objective found.excluded (dedupe F found.candidates))))

  abbrev pub checked_context :
      (Node → Node → Bool) → Inputs F → HardwareSnapshot × List ℕ → ℕ → Answer (Planning F)
  checked_context before i selection context =
      if check_context_length i.model context (i.constraints).allow_context_override
      then refused configuration_error
      else after_context before i selection context

  abbrev pub after_selection :
      (Node → Node → Bool) → Inputs F → HardwareSnapshot × List ℕ → Answer (Planning F)
  after_selection before i selection =
      and_with (resolve_context_length F i.model i.workload i.constraints)
        (checked_context before i selection)

  unfoldable pub generate_candidates :
      (Node → Node → Bool) → HardwareSnapshot → Inputs F → Answer (Planning F)
  unfolding select_gpus resolve_context_length divisors plan estimate_memory dedupe rank
      cross_node_candidates
  generate_candidates before snapshot inputs =
      let i = effective inputs in
      if no_engines i.engines
      then refused no_viable_plan
      else and_with (select_gpus F snapshot i.constraints) (after_selection before i)
