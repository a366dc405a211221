-- ===== src/Schemas/Benchmark.antt =====
-- src/servepilot/schemas/benchmark.py and schemas/workload.py: the measurements that tuning compares.
-- Fields that no modelled code reads are left out; `label` is one of the tuner's labels.
use open_baseten_inference.Prelude.{ℕ, String, Bool, true, false, ◌&&◌, Option, none, some, Floats}

pub data Objective : Type 0 where
  throughput latency balanced : Objective

pub data Label : Type 0 where
  stage_a sweep refine memory final : Label
  latency_point : Label

pub record BenchmarkSpec : Type 0 where
  pub concurrency : ℕ
  pub num_requests : ℕ
  pub label : Label

module _ (F : Floats) where
  open F use {Float}

  pub record BenchmarkResult : Type 0 where
    pub candidate_id : String
    pub spec : BenchmarkSpec
    pub successful_requests : ℕ
    pub output_tokens_per_second : Float
    pub latency_p95_ms : Float
    pub ttft_p95_ms : Option Float
    pub tpot_p95_ms : Option Float
    pub error_rate : Float

  pub record LatencyConstraints : Type 0 where
    pub max_p95_ttft_ms : Option Float
    pub max_p95_latency_ms : Option Float
    pub max_p95_tpot_ms : Option Float

  abbrev is_none : Option Float → Bool
  is_none none = true
  is_none (some x) = false

  -- the property `is_empty`
  abbrev pub is_empty : LatencyConstraints → Bool
  is_empty slo =
      is_none slo.max_p95_ttft_ms && is_none slo.max_p95_latency_ms && is_none slo.max_p95_tpot_ms

  pub record ParetoPoint : Type 0 where
    pub candidate : String
    pub concurrency : ℕ
    pub tokens_per_second : Float
    pub p95_ms : Float
    pub on_front : Bool
