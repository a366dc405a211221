-- ===== src/Planner/Candidates.antt =====
-- src/servepilot/planner/candidates.py: the choice of GPUs, the context length and the
-- candidate plans. An engine adapter is an interface; texts of reasons, warnings and rationales are
-- left out.
use open_baseten_inference.Prelude.{
  ℕ, max, min, String, str_eq, str_append, decimal, Bool, true, false, not, ◌&&◌, Option, none,
  some, List, [], ◌∷◌, ◌++◌, map, ltb, ◌==◌, if◌then◌else◌, any, mem_nat, Floats,
}
use open_baseten_inference.Schemas.Hardware.{GpuDevice, HardwareSnapshot, select, sorted_set}
use open_baseten_inference.Schemas.Plan.{ModelProfile, TokenLengths, p95_sequence_tokens}
use open_baseten_inference.Schemas.Tuning.{CandidatePlan, EngineName, vllm, sglang, fake}
use open_baseten_inference.Benchmark.Points.{or_default}

-- `HardwareError`, `ConfigurationError`, `NoViablePlanError`, and any other exception
pub data PlanError : Type 0 where
  hardware_error configuration_error no_viable_plan other_error : PlanError

pub data Answer {ℓ} (A : Type ℓ) : Type ℓ where
  answer : A → Answer A
  refused : PlanError → Answer A

abbrev pub and_with {ℓ κ} : {A : Type ℓ} {B : Type κ} → Answer A → (A → Answer B) → Answer B
and_with (answer a) f = f a
and_with (refused e) f = refused e

module _ (F : Floats) where
  open F use {Float}

  pub record PlanConstraints : Type 0 where
    pub engine : Option EngineName
    pub tensor_parallel_size : Option ℕ
    pub replica_count : Option ℕ
    pub gpu_ids : Option (List ℕ)
    pub context_length : Option ℕ
    pub max_concurrency : Option ℕ
    pub memory_headroom : Option Float
    pub memory_fraction : Option Float
    pub allow_context_override : Bool

  -- what the planner asks of an engine adapter
  pub record InferenceEngine : Type 0 where
    pub engine_name : EngineName
    pub default_max_num_seqs : ℕ
    pub supports_expert_parallel : ModelProfile → Bool
    pub supports_dp_attention : ModelProfile → Bool
    pub supports_ray_backend : Bool
    pub supports_pipeline_parallel : Bool
    pub supports : ModelProfile → CandidatePlan F → Bool

  -- `--gpus`, or all GPUs; an index that is not there is a `ConfigurationError`
  abbrev wanted_gpus : List ℕ → Option (List ℕ) → Answer (List ℕ)
  wanted_gpus available none = answer (sorted_set available)
  wanted_gpus available (some ids) =
      if any (λ i. not (mem_nat i available)) ids
      then refused configuration_error
      else answer (sorted_set ids)

  abbrev same_model : GpuDevice → GpuDevice → Bool
  same_model a b = str_eq a.name b.name && (a.total_memory_bytes == b.total_memory_bytes)

  -- one group of `homogeneous_groups`
  abbrev pub is_homogeneous : List GpuDevice → Bool
  is_homogeneous [] = true
  is_homogeneous (g ∷ gs) = not (any (λ h. not (same_model g h)) gs)

  abbrev is_empty_list {ℓ} : {A : Type ℓ} → List A → Bool
  is_empty_list [] = true
  is_empty_list (x ∷ xs) = false

  -- `select_gpus`: the restricted snapshot and the indices
  unfoldable pub select_gpus :
      HardwareSnapshot → PlanConstraints → Answer (HardwareSnapshot × List ℕ)
  unfolding sorted_set select
  select_gpus s c =
      if is_empty_list s.gpus
      then refused hardware_error
      else and_with (wanted_gpus (map (λ (g : GpuDevice). g.index) s.gpus) c.gpu_ids) (λ ids.
        if is_homogeneous (select ids s).gpus
        then answer (select ids s, ids)
        else refused hardware_error)

  abbrev is_set : Option ℕ → Bool
  is_set none = false
  is_set (some n) = true

  abbrev within_limit : TokenLengths → Option ℕ → Bool → ℕ → Answer ℕ
  within_limit workload none forced requested = answer requested
  within_limit workload (some limit) forced requested =
      if ltb limit requested && not forced
      then (if ltb limit (p95_sequence_tokens workload)
          then refused configuration_error
          else answer limit)
      else answer requested

  unfoldable pub resolve_context_length : ModelProfile → TokenLengths → PlanConstraints → Answer ℕ
  resolve_context_length model workload c =
      within_limit workload model.max_position_embeddings (is_set c.context_length)
        (or_default c.context_length workload.max_context_tokens)

  abbrev engine_value : EngineName → String
  engine_value vllm = "vllm"
  engine_value sglang = "sglang"
  engine_value fake = "fake"

  abbrev stage_text : ℕ → String
  stage_text pp = if ltb 1 pp then str_append "-pp" (decimal 20 pp) else ""

  -- `_plan_id`
  abbrev pub plan_id : EngineName → ℕ → ℕ → ℕ → String → String
  plan_id e tp pp replicas suffix = str_append (engine_value e) (
      str_append "-tp" (
        str_append (decimal 20 tp)
          (str_append (stage_text pp) (str_append "-x" (str_append (decimal 20 replicas) suffix)))))

  -- `_max_num_seqs`
  abbrev pub max_num_seqs : InferenceEngine → Option ℕ → PlanConstraints → ℕ
  max_num_seqs engine c50 c = by_limit c.max_concurrency c50
    where
      by_limit : Option ℕ → Option ℕ → ℕ
      by_limit (some n) est = n
      by_limit none none = engine.default_max_num_seqs
      by_limit none (some est) = max 16 (min 1024 est)

  -- the variants of a topology: plain, expert parallel, DP attention
  pub data Variant : Type 0 where
    plain expert_parallel dp_attention : Variant

  abbrev pub suffix_of : Variant → String
  suffix_of plain = ""
  suffix_of expert_parallel = "-ep"
  suffix_of dp_attention = "-dpa"

  abbrev pub is_plain : Variant → Bool
  is_plain plain = true
  is_plain _ = false

  abbrev pub is_attention : Variant → Bool
  is_attention dp_attention = true
  is_attention _ = false

  -- why a candidate is left out
  pub data Excluded : Type 0 where
    heads_not_divisible : ℕ → Excluded
    experts_not_divisible : EngineName → ℕ → Excluded
    not_supported needs_memory duplicate : CandidatePlan F → Excluded
    -- of layouts that span machines
    single_copy : Excluded
    no_shape : ℕ → Excluded
    no_ray_backend : EngineName → Excluded

  pub record Planning : Type 0 where
    pub candidates : List (CandidatePlan F)
    pub excluded : List Excluded

  abbrev pub nothing : Planning
  nothing = record { candidates = []; excluded = [] }

  abbrev pub joined : Planning → Planning → Planning
  joined a b = record {
    candidates = a.candidates ++ b.candidates;
    excluded = a.excluded ++ b.excluded;
  }
