-- ===== src/Planner/Generation/Viable.antt =====
-- planner/candidates.py, `generate_candidates`: what its candidates satisfy.
use mathlib.Core.List.{Memᴰ}
use open_baseten_inference.Prelude.{
  ℕ, ◌≡◌, refl, subst, Bool, true, false, not, ◌&&◌, Option, none, some, List, [], ◌∷◌, ◌++◌,
  sum_by, ◌/◌, if◌then◌else◌, if_cases, if_intro, any, All, All-append, All-Memᴰ, Floats,
  sort_by-All,
}
use open_baseten_inference.Schemas.Benchmark.{Objective}
use open_baseten_inference.Schemas.Hardware.{GpuDevice, HardwareSnapshot, is_cluster}
use open_baseten_inference.Schemas.Plan.{MemoryEstimate}
use open_baseten_inference.Schemas.Tuning.{CandidatePlan, same_key}
use open_baseten_inference.Planner.Groups.{Node, plan}
use open_baseten_inference.Planner.Memory.{estimate_memory}
use open_baseten_inference.Planner.Pruning.{
  check_memory, check_tp_divisibility, dedupe_from, dedupe, check_context_length,
  check_ep_divisibility,
}
use open_baseten_inference.Planner.Candidates.{
  Answer, answer, refused, and_with, InferenceEngine, Variant, Planning, joined, Excluded,
  heads_not_divisible, configuration_error, no_viable_plan, select_gpus, resolve_context_length,
}
use open_baseten_inference.Planner.Inputs.{Inputs, gpus_at, chosen_engine}
use open_baseten_inference.Planner.CrossNode.{cross_node_candidates}
use open_baseten_inference.Planner.Generation.{
  experts_excluded, variants, shards_experts, with_gpus, with_groups, replicas_of, flattened,
  node_sizes, finished, effective, after_context, checked_context, after_selection, no_engines,
  sizes, least_size, candidate, judged, judged_all, each_engine, with_estimate, one_size, each_size,
  rank, ranks_before, generate_candidates, with_cross_node, no_candidates,
}
use open_baseten_inference.Planner.Generation.Room.{has_room, no_reason-has_room}
use open_baseten_inference.Planner.Generation.Viability.{
  IsViable, AllIn, AllIn-and_with, appended-AllIn, supported,
}
use open_baseten_inference.Planner.Generation.Across.{cross_node_candidates-AllIn}

module _ (F : Floats) where
  module _ (i : Inputs F) (context : ℕ) where
    judged-IsViable :
        (engine : InferenceEngine F) (tp replicas : ℕ) (groups : List (List ℕ))
        (e : MemoryEstimate F) (v : Variant F)
        → Memᴰ engine i.engines
        → check_tp_divisibility i.model tp ≡ false
        → (check_memory F e ≡ false → has_room F i.memory_cfg context e ≡ true)
        → All
            (IsViable F i)
            (judged F i context engine e
              (candidate F i context engine tp replicas groups e v)).candidates
    judged-IsViable engine tp replicas groups e v m d room =
        let p = candidate F i context engine tp replicas groups e v in
        if_cases (λ (a : Planning F). All (IsViable F i) a.candidates)
          (not (engine.supports i.model p)) (λ h. tt)
          (λ h.
            if_cases (λ (a : Planning F). All (IsViable F i) a.candidates) (check_memory F e)
              (λ k. tt) (λ k. (((e, refl, room k), supported F i engine p m refl h, d), tt)))

    judged_all-IsViable :
        (engine : InferenceEngine F) (tp replicas : ℕ) (groups : List (List ℕ))
        (e : MemoryEstimate F) (vs : List (Variant F))
        → Memᴰ engine i.engines
        → check_tp_divisibility i.model tp ≡ false
        → (check_memory F e ≡ false → has_room F i.memory_cfg context e ≡ true)
        → All (IsViable F i) (judged_all F i context engine tp replicas groups e vs).candidates
    judged_all-IsViable engine tp replicas groups e [] m d room = tt
    judged_all-IsViable engine tp replicas groups e (v ∷ vs) m d room =
        All-append (IsViable F i)
          (judged F i context engine e
            (candidate F i context engine tp replicas groups e v)).candidates
          (judged_all F i context engine tp replicas groups e vs).candidates
          (judged-IsViable engine tp replicas groups e v m d room)
          (judged_all-IsViable engine tp replicas groups e vs m d room)

    none_excluded :
        (n : InferenceEngine F) (tp : ℕ)
        → All (IsViable F i) (experts_excluded F i context n tp).candidates
    none_excluded n tp =
        if_cases (λ (a : Planning F). All (IsViable F i) a.candidates)
          (shards_experts F i context n tp && check_ep_divisibility i.model tp) (λ e. tt) (λ e. tt)

    each_engine-IsViable :
        (tp replicas : ℕ) (groups : List (List ℕ)) (e : MemoryEstimate F)
        (es : List (InferenceEngine F))
        → All (λ n. Memᴰ n i.engines) es
        → check_tp_divisibility i.model tp ≡ false
        → (check_memory F e ≡ false → has_room F i.memory_cfg context e ≡ true)
        → All (IsViable F i) (each_engine F i context tp replicas groups e es).candidates
    each_engine-IsViable tp replicas groups e [] ms d room = tt
    each_engine-IsViable tp replicas groups e (n ∷ ns) ms d room =
        let out = experts_excluded F i context n tp in
        let own = judged_all F i context n tp replicas groups e (variants F i context n tp) in
        let rest = each_engine F i context tp replicas groups e ns in
        let later = each_engine-IsViable tp replicas groups e ns ms.1 d room in
        if_intro (λ (a : Planning F). All (IsViable F i) a.candidates)
          (chosen_engine (i.constraints).engine n.engine_name)
          {x = joined F (joined F out own) rest} {y = rest}
          (All-append (IsViable F i) (out.candidates ++ own.candidates) rest.candidates
            (All-append (IsViable F i) out.candidates own.candidates (none_excluded n tp)
              (judged_all-IsViable n tp replicas groups e (variants F i context n tp) ms.0 d room))
            later)
          later

    with_groups-AllIn :
        (s : HardwareSnapshot) (tp replicas : ℕ) (o : Option (List (List ℕ)))
        → check_tp_divisibility i.model tp ≡ false
        → AllIn F (IsViable F i) (with_groups F i context s tp replicas o)
    with_groups-AllIn s tp replicas none d = tt
    with_groups-AllIn s tp replicas (some groups) d = on_gpus (gpus_at s.gpus (flattened groups))
      where
        on_estimate :
            (gpus : List GpuDevice) (o : Option (MemoryEstimate F))
            → estimate_memory F i.model gpus tp
                (i.kv_for tp)
                context
                i.workload
                i.memory_cfg
                1
                (i.constraints).memory_fraction
              ≡ o
            → AllIn F (IsViable F i) (with_estimate F i context tp replicas groups o)
        on_estimate gpus none h = tt
        on_estimate gpus (some e) h =
            each_engine-IsViable tp replicas groups e i.engines (All-Memᴰ i.engines) d
              (no_reason-has_room F i context tp 1 gpus e h)

        on_gpus :
            (o : Option (List GpuDevice))
            → AllIn F (IsViable F i) (with_gpus F i context tp replicas groups o)
        on_gpus none = tt
        on_gpus (some gpus) =
            on_estimate gpus
              (estimate_memory F i.model gpus tp (i.kv_for tp) context i.workload i.memory_cfg 1
                (i.constraints).memory_fraction)
              refl

    one_size-AllIn :
        (before : Node → Node → Bool) (s : HardwareSnapshot) (ids : List ℕ) (tp : ℕ)
        → AllIn F (IsViable F i) (one_size F i context before s ids tp)
    one_size-AllIn before s ids tp =
        let found =
          and_with
            (replicas_of F i context (i.constraints).replica_count
              (sum_by (λ n. n / tp) (node_sizes s.gpus)))
            (λ replicas.
              with_groups F i context s tp replicas (plan before s tp replicas ids false)) in
        if_cases (λ (x : Answer (Planning F)). AllIn F (IsViable F i) x)
          (check_tp_divisibility i.model tp)
          {x = answer (record { candidates = []; excluded = heads_not_divisible tp ∷ [] })}
          {y = found} (λ e. tt)
          (λ e.
            AllIn-and_with F (IsViable F i)
              (replicas_of F i context (i.constraints).replica_count
                (sum_by (λ n. n / tp) (node_sizes s.gpus)))
              (λ replicas.
                with_groups F i context s tp replicas (plan before s tp replicas ids false))
              (λ replicas. with_groups-AllIn s tp replicas (plan before s tp replicas ids false) e))

    each_size-AllIn :
        (before : Node → Node → Bool) (s : HardwareSnapshot) (ids tps : List ℕ)
        → AllIn F (IsViable F i) (each_size F i context before s ids tps)
    each_size-AllIn before s ids [] = tt
    each_size-AllIn before s ids (tp ∷ tps) =
        appended-AllIn F (IsViable F i) (one_size F i context before s ids tp)
          (each_size F i context before s ids tps) (one_size-AllIn before s ids tp)
          (each_size-AllIn before s ids tps)

  -- the sort and the end of the planning keep what all plans satisfy
  dedupe_from-All :
      (P : CandidatePlan F → Type 0) (seen ps : List (CandidatePlan F))
      → All P ps
      → All P (dedupe_from F seen ps).0
  dedupe_from-All P seen [] h = tt
  dedupe_from-All P seen (p ∷ ps) h =
      let again = any (λ q. same_key F q p) seen in
      let rest = dedupe_from F (if again then seen else p ∷ seen) ps in
      let later = dedupe_from-All P (if again then seen else p ∷ seen) ps h.1 in
      if_intro (λ (d : List (CandidatePlan F) × List (CandidatePlan F)). All P d.0) again
        {x = (rest.0, p ∷ rest.1)} {y = (p ∷ rest.0, rest.1)} later (h.0, later)

  finished-AllIn :
      (P : CandidatePlan F → Type 0) (objective : Objective) (excluded : List (Excluded F))
      (d : List (CandidatePlan F) × List (CandidatePlan F))
      → All P d.0
      → AllIn F P (finished F objective excluded d)
  unfolding rank
  finished-AllIn P objective excluded ([], dupes) h = tt
  finished-AllIn P objective excluded (p ∷ ps, dupes) h =
      sort_by-All P (ranks_before F objective) (p ∷ ps) h

  found-AllIn :
      (P : CandidatePlan F → Type 0) (objective : Objective) (x : Answer (Planning F))
      → AllIn F P x
      → AllIn F P
          (and_with x (λ found. finished F objective found.excluded (dedupe F found.candidates)))
  unfolding dedupe
  found-AllIn P objective (answer a) h =
      finished-AllIn P objective a.excluded (dedupe_from F [] a.candidates)
        (dedupe_from-All P [] a.candidates h)
  found-AllIn P objective (refused e) h = tt

  with_cross_node-AllIn :
      (before : Node → Node → Bool) (i : Inputs F) (s : HardwareSnapshot) (context : ℕ)
      (x : Answer (Planning F))
      → AllIn F (IsViable F i) x
      → AllIn F (IsViable F i) (and_with x (with_cross_node F before i s context))
  with_cross_node-AllIn before i s context (answer found) h =
      let more = cross_node_candidates F i context before s in
      if_intro (AllIn F (IsViable F i)) (is_cluster s && no_candidates F found.candidates)
        {x = and_with more (λ b. answer (joined F found b))} {y = answer found}
        (appended-AllIn F (IsViable F i) (answer found) more h
          (cross_node_candidates-AllIn F i context before s))
        h
  with_cross_node-AllIn before i s context (refused e) h = tt

  after_context-AllIn :
      (before : Node → Node → Bool) (i : Inputs F) (selection : HardwareSnapshot × List ℕ)
      (context : ℕ)
      → AllIn F (IsViable F i) (after_context F before i selection context)
  after_context-AllIn before i (s, ids) context =
      AllIn-and_with F (IsViable F i) (least_size F (node_sizes s.gpus)) _ (λ gpus.
        AllIn-and_with F (IsViable F i)
          (sizes F (is_cluster s) (i.constraints).tensor_parallel_size gpus) _
          (λ tps.
            found-AllIn (IsViable F i) i.objective
              (and_with (each_size F i context before s ids tps)
                (with_cross_node F before i s context))
              (with_cross_node-AllIn before i s context (each_size F i context before s ids tps)
                (each_size-AllIn i context before s ids tps))))

  checked_context-AllIn :
      (before : Node → Node → Bool) (i : Inputs F) (selection : HardwareSnapshot × List ℕ)
      (context : ℕ)
      → AllIn F (IsViable F i) (checked_context F before i selection context)
  checked_context-AllIn before i selection context =
      if_intro (λ (x : Answer (Planning F)). AllIn F (IsViable F i) x)
        (check_context_length i.model context (i.constraints).allow_context_override)
        {x = refused configuration_error} {y = after_context F before i selection context} tt
        (after_context-AllIn before i selection context)

  generate_candidates-AllIn :
      (before : Node → Node → Bool) (s : HardwareSnapshot) (inputs : Inputs F)
      → AllIn F (IsViable F (effective F inputs)) (generate_candidates F before s inputs)
  unfolding generate_candidates
  generate_candidates-AllIn before s inputs =
      let i = effective F inputs in
      if_intro (λ (x : Answer (Planning F)). AllIn F (IsViable F i) x) (no_engines F i.engines)
        {x = refused no_viable_plan}
        {y = and_with (select_gpus F s i.constraints) (after_selection F before i)} tt
        (AllIn-and_with F (IsViable F i) (select_gpus F s i.constraints)
          (after_selection F before i)
          (λ selection.
            AllIn-and_with F (IsViable F i)
              (resolve_context_length F i.model i.workload i.constraints)
              (checked_context F before i selection) (checked_context-AllIn before i selection)))

  -- Each candidate that `generate_candidates` returns, on one machine or across the machines of a
  -- cluster, carries a memory estimate whose budget, where the weights are known, holds the weights, the
  -- overheads and the memory wanted for the KV cache; an engine of its name supports it; and, where it
  -- has one pipeline stage, its tensor-parallel size divides the attention heads, where their number is
  -- known.
  pub generate_candidates-IsViable :
      (before : Node → Node → Bool) (s : HardwareSnapshot) (inputs : Inputs F) (found : Planning F)
      → generate_candidates F before s inputs ≡ answer found
      → All (IsViable F (effective F inputs)) found.candidates
  generate_candidates-IsViable before s inputs found h =
      subst (AllIn F (IsViable F (effective F inputs))) h
        (generate_candidates-AllIn before s inputs)
