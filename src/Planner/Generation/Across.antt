-- ===== src/Planner/Generation/Across.antt =====
-- planner/candidates.py, `_cross_node_candidates`: its candidates are viable.
use mathlib.Core.List.{Memᴰ}
use open_baseten_inference.Prelude.{
  ℕ, ◌≡◌, refl, Bool, true, false, not, ◌&&◌, Option, none, some, List, [], ◌∷◌, arith,
  if◌then◌else◌, if_cases, if_intro, All, All-Memᴰ, Floats, ltb, ◌*◌, length, ◌==◌, All-keep,
}
use open_baseten_inference.Schemas.Hardware.{GpuDevice, HardwareSnapshot}
use open_baseten_inference.Schemas.Plan.{MemoryEstimate}
use open_baseten_inference.Planner.Groups.{Node}
use open_baseten_inference.Planner.Memory.{estimate_memory}
use open_baseten_inference.Planner.Pruning.{check_memory, check_tp_divisibility}
use open_baseten_inference.Planner.Candidates.{InferenceEngine, Planning}
use open_baseten_inference.Planner.Generation.Room.{has_room, no_reason-has_room}
use open_baseten_inference.Planner.Generation.Viability.{IsViable, AllIn, appended-AllIn, supported}
use open_baseten_inference.Planner.Inputs.{Inputs, gpus_at, chosen_engine}
use open_baseten_inference.Planner.CrossNode.{
  named_nodes, gpus_per_node, all_gpus, shapes, wanted_shapes, other_than_one, only_excluded,
  spanning, judged_across, estimated_across, placed_across, each_shape, each_engine_across,
  with_shapes, cross_node_candidates,
}
use open_baseten_inference.Planner.Candidates.{no_ray_backend}

module _ (F : Floats) (i : Inputs F) (context : ℕ) where
  judged_across-All :
      (engine : InferenceEngine F) (gpus : List ℕ) (tp pp : ℕ) (e : MemoryEstimate F)
      → Memᴰ engine i.engines
      → (ltb pp 2 && check_tp_divisibility i.model tp) ≡ false
      → (check_memory F e ≡ false → has_room F i.memory_cfg context e ≡ true)
      → All
          (IsViable F i)
          (judged_across F i context engine e (spanning F i context engine gpus tp pp e)).candidates
  judged_across-All engine gpus tp pp e m d room =
      let p = spanning F i context engine gpus tp pp e in
      if_cases (λ (a : Planning F). All (IsViable F i) a.candidates) (check_memory F e) (λ k. tt)
        (λ k.
          if_cases (λ (a : Planning F). All (IsViable F i) a.candidates)
            (not (engine.supports i.model p)) (λ h. tt)
            (λ h. (((e, refl, room k), supported F i engine p m refl h, d), tt)))

  estimated_across-AllIn :
      (engine : InferenceEngine F) (gpus : List ℕ) (tp pp : ℕ) (devices : List GpuDevice)
      (o : Option (MemoryEstimate F))
      → Memᴰ engine i.engines
      → (ltb pp 2 && check_tp_divisibility i.model tp) ≡ false
      → estimate_memory F i.model devices tp
          (i.kv_for tp)
          context
          i.workload
          i.memory_cfg
          pp
          (i.constraints).memory_fraction
        ≡ o
      → AllIn F (IsViable F i) (estimated_across F i context engine gpus tp pp o)
  estimated_across-AllIn engine gpus tp pp devices none m d h = tt
  estimated_across-AllIn engine gpus tp pp devices (some e) m d h =
      judged_across-All engine gpus tp pp e m d (no_reason-has_room F i context tp pp devices e h)

  placed_across-AllIn :
      (engine : InferenceEngine F) (gpus : List ℕ) (tp pp : ℕ) (o : Option (List GpuDevice))
      → Memᴰ engine i.engines
      → (ltb pp 2 && check_tp_divisibility i.model tp) ≡ false
      → AllIn F (IsViable F i) (placed_across F i context engine gpus tp pp o)
  placed_across-AllIn engine gpus tp pp none m d = tt
  placed_across-AllIn engine gpus tp pp (some devices) m d =
      estimated_across-AllIn engine gpus tp pp devices _ m d refl

  -- a shape of one stage has a size that divides the heads
  abbrev FitsHeads : ℕ × ℕ → Type 0
  FitsHeads shape = (ltb shape.1 2 && check_tp_divisibility i.model shape.0) ≡ false

  each_shape-AllIn :
      (s : HardwareSnapshot) (engine : InferenceEngine F) (gpus : List ℕ) (all : List (ℕ × ℕ))
      → Memᴰ engine i.engines
      → All FitsHeads all
      → AllIn F (IsViable F i) (each_shape F i context s engine gpus all)
  each_shape-AllIn s engine gpus [] m d = tt
  each_shape-AllIn s engine gpus ((tp, pp) ∷ rest) m d =
      let later = each_shape-AllIn s engine gpus rest m d.1 in
      if_intro (AllIn F (IsViable F i)) (ltb 1 pp && not engine.supports_pipeline_parallel)
        {x = each_shape F i context s engine gpus rest} later
        (appended-AllIn F (IsViable F i)
          (placed_across F i context engine gpus tp pp (gpus_at s.gpus gpus))
          (each_shape F i context s engine gpus rest)
          (placed_across-AllIn engine gpus tp pp (gpus_at s.gpus gpus) m d.0) later)

  each_engine_across-AllIn :
      (s : HardwareSnapshot) (gpus : List ℕ) (all : List (ℕ × ℕ)) (es : List (InferenceEngine F))
      → All (λ n. Memᴰ n i.engines) es
      → All FitsHeads all
      → AllIn F (IsViable F i) (each_engine_across F i context s gpus all es)
  each_engine_across-AllIn s gpus all [] ms d = tt
  each_engine_across-AllIn s gpus all (n ∷ ns) ms d =
      let later = each_engine_across-AllIn s gpus all ns ms.1 d in
      let own =
        if n.supports_ray_backend
        then each_shape F i context s n gpus all
        else only_excluded F (no_ray_backend n.engine_name) in
      if_intro (AllIn F (IsViable F i)) (not (chosen_engine (i.constraints).engine n.engine_name))
        {x = each_engine_across F i context s gpus all ns} later
        (appended-AllIn F (IsViable F i) own (each_engine_across F i context s gpus all ns)
          (if_intro (AllIn F (IsViable F i)) n.supports_ray_backend
            (each_shape-AllIn s n gpus all ms.0 d) tt)
          later)

  with_shapes-AllIn :
      (s : HardwareSnapshot) (gpus : List ℕ) (all : List (ℕ × ℕ))
      → All FitsHeads all
      → AllIn F (IsViable F i) (with_shapes F i context s gpus all)
  with_shapes-AllIn s gpus [] d = tt
  with_shapes-AllIn s gpus (shape ∷ rest) d =
      each_engine_across-AllIn s gpus (shape ∷ rest) i.engines (All-Memᴰ i.engines) d

  shapes-FitsHeads : (tp pp : ℕ) → ltb pp 2 ≡ false → All FitsHeads (shapes i.model tp pp)
  shapes-FitsHeads tp pp h = (
    ground (arith, h),
    if_cases (All FitsHeads) (check_tp_divisibility i.model (tp * pp)) (λ e. tt)
        (λ e. (ground (arith, e), tt)),
  )

  wanted_shapes-All :
      (o : Option ℕ) (all : List (ℕ × ℕ)) → All FitsHeads all → All FitsHeads (wanted_shapes o all)
  wanted_shapes-All none all d = d
  wanted_shapes-All (some tp) all d = All-keep FitsHeads (λ (shape : ℕ × ℕ). shape.0 == tp) all d

  pub cross_node_candidates-AllIn :
      (before : Node → Node → Bool) (s : HardwareSnapshot)
      → AllIn F (IsViable F i) (cross_node_candidates F i context before s)
  unfolding cross_node_candidates
  cross_node_candidates-AllIn before s =
      let ns = named_nodes before s in
      let per = gpus_per_node s ns in
      let all =
        wanted_shapes (i.constraints).tensor_parallel_size (shapes i.model per (length ns)) in
      if_cases (AllIn F (IsViable F i)) (ltb (length ns) 2) (λ e. tt)
        (λ e. if_intro (AllIn F (IsViable F i)) (other_than_one (i.constraints).replica_count) tt (
          with_shapes-AllIn s (all_gpus s per ns) all (
            wanted_shapes-All (i.constraints).tensor_parallel_size (shapes i.model per (length ns))
              (shapes-FitsHeads per (length ns) e))))
