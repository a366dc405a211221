-- ===== src/Schemas/Tuning.antt =====
-- src/servepilot/schemas/plan.py (candidate plans and evaluations), schemas/workload.py and the
-- settings and spec of benchmark/tuner.py and benchmark/runner.py, as far as tuning reads them.
-- Texts, diagnostics, scores written back into results and the engine's settings are left out.
use open_baseten_inference.Prelude.{
  ℕ, ◌*◌, max, String, str_eq, Bool, true, false, not, ◌&&◌, Option, none, some, List, [], ◌∷◌,
  ◌==◌, if◌then◌else◌, Floats,
}
use open_baseten_inference.Schemas.Benchmark.{
  Objective, BenchmarkSpec, BenchmarkResult, LatencyConstraints, Label,
}
use open_baseten_inference.Schemas.Plan.{MemoryEstimate}
use open_baseten_inference.Planner.Scoring.{ScoringConfig}

pub data EngineName : Type 0 where
  vllm sglang fake : EngineName

abbrev pub engine_eq : EngineName → EngineName → Bool
engine_eq vllm vllm = true
engine_eq sglang sglang = true
engine_eq fake fake = true
engine_eq _ _ = false

abbrev list_eq {ℓ} : {A : Type ℓ} → (A → A → Bool) → List A → List A → Bool
list_eq eq [] [] = true
list_eq eq (x ∷ xs) (y ∷ ys) = eq x y && list_eq eq xs ys
list_eq eq _ _ = false

abbrev pub option_eq {ℓ} : {A : Type ℓ} → (A → A → Bool) → Option A → Option A → Bool
option_eq eq none none = true
option_eq eq (some x) (some y) = eq x y
option_eq eq _ _ = false

abbrev bool_eq : Bool → Bool → Bool
bool_eq true b = b
bool_eq false b = not b

pub data Status : Type 0 where
  benchmarked failed : Status

pub data Stage : Type 0 where
  structural sweeping memory final : Stage

abbrev or_empty : Option String → String
or_empty none = ""
or_empty (some s) = s

module _ (F : Floats) where
  open F use {Float, le}

  -- `launch_settings` stands for the dump of the other fields: objective, nodes, chunked prefill, KV
  -- type, engine arguments
  pub record CandidatePlan : Type 0 where
    pub id : String
    pub engine : EngineName
    pub gpu_groups : List (List ℕ)
    pub tensor_parallel_size : ℕ
    pub data_parallel_size : ℕ
    pub pipeline_parallel_size : ℕ
    pub replica_count : ℕ
    pub expert_parallel_size : Option ℕ
    pub expert_parallel_enabled : Bool
    pub dp_attention_enabled : Bool
    pub distributed_backend : Option String
    pub context_length : ℕ
    pub memory_fraction : Option Float
    pub max_concurrency : Option ℕ
    pub max_num_seqs : Option ℕ
    pub launch_settings : String
    pub estimated_memory : Option (MemoryEstimate F)

  -- `expert_parallel_size if expert_parallel_enabled else 0`
  abbrev expert_size : CandidatePlan → Option ℕ
  expert_size p = if p.expert_parallel_enabled then p.expert_parallel_size else some 0

  -- `distributed_backend or ''`
  abbrev backend : CandidatePlan → String
  backend p = or_empty p.distributed_backend

  -- whether two plans have the same `structural_key`, whose text names these fields
  unfoldable pub same_key : CandidatePlan → CandidatePlan → Bool
  same_key p q =
      engine_eq p.engine q.engine
      && (p.tensor_parallel_size == q.tensor_parallel_size)
      && (p.pipeline_parallel_size == q.pipeline_parallel_size)
      && (p.data_parallel_size == q.data_parallel_size)
      && (p.replica_count == q.replica_count)
      && option_eq ◌==◌ (expert_size p) (expert_size q)
      && bool_eq p.dp_attention_enabled q.dp_attention_enabled
      && (p.context_length == q.context_length)
      && list_eq (list_eq ◌==◌) p.gpu_groups q.gpu_groups
      && str_eq (backend p) (backend q)

  -- `==` on floats
  abbrev pub float_eq : Float → Float → Bool
  float_eq a b = le a b && le b a

  -- whether two plans have the same dump without the diagnostics
  unfoldable pub same_launch : CandidatePlan → CandidatePlan → Bool
  unfolding same_key
  same_launch p q =
      same_key p q
      && option_eq ◌==◌ p.expert_parallel_size q.expert_parallel_size
      && bool_eq p.expert_parallel_enabled q.expert_parallel_enabled
      && option_eq str_eq p.distributed_backend q.distributed_backend
      && option_eq float_eq p.memory_fraction q.memory_fraction
      && option_eq ◌==◌ p.max_concurrency q.max_concurrency
      && option_eq ◌==◌ p.max_num_seqs q.max_num_seqs
      && str_eq p.launch_settings q.launch_settings
      && str_eq p.id q.id

  pub record CandidateEvaluation : Type 0 where
    pub plan : CandidatePlan
    pub stage : Stage
    pub status : Status
    pub results : List (BenchmarkResult F)

  pub record WorkloadProfile : Type 0 where
    pub objective : Objective
    pub expected_concurrency : Option ℕ
    pub latency_constraints : Option (LatencyConstraints F)

  pub record TuningSettings : Type 0 where
    pub max_structural_candidates : ℕ
    pub top_k : ℕ
    pub stage_a_requests : ℕ
    pub sweep_requests : ℕ
    pub final_multiplier : ℕ
    pub memory_tuning : Bool
    pub sweep_start : ℕ
    pub sweep_max : ℕ
    pub sweep_growth : ℕ
    pub refinement_points : ℕ
    pub memory_step : Float
    pub memory_min_gain : Float
    pub scoring : ScoringConfig F

-- `_spec`, the label being one of the tuner's
abbrev pub make_spec : ℕ → ℕ → Label → BenchmarkSpec
make_spec concurrency requests label = record {
  concurrency = concurrency;
  num_requests = max requests (2 * concurrency);
  label = label;
}
