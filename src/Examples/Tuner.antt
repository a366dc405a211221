-- ===== src/Examples/Tuner.antt =====
-- benchmark/tuner.py on two candidates, of which the first does not launch.
use open_baseten_inference.Prelude.{
  ltb, ◌||◌, map, ℕ, ◌*◌, ◌≤◌, ◌≡◌, refl, String, true, false, none, some, List, [], ◌∷◌, min, All,
  mem_nat, arith, str_eq, if◌then◌else◌,
}
use open_baseten_inference.Schemas.Benchmark.{throughput, BenchmarkSpec, BenchmarkResult, Label}
use open_baseten_inference.Schemas.Tuning.{
  CandidatePlan, CandidateEvaluation, WorkloadProfile, TuningSettings, EngineName, Status, Stage,
}
use open_baseten_inference.Schemas.Hardware.Pairs.{AscendingFrom}
use open_baseten_inference.Planner.Scoring.{score_results}
use open_baseten_inference.Benchmark.Tasks.{
  Evaluator, Tuning, Opened, launched, launch_failed, measured,
}
use open_baseten_inference.Benchmark.Points.{geometric, sweep_points}
use open_baseten_inference.Benchmark.Points.Visits.{IsClosed, sweep_points-AscendingFrom}
use open_baseten_inference.Benchmark.Tuner.{Operating, operating, tune, pick_winner}
use open_baseten_inference.Benchmark.Winner.{IsPicked, pick_winner-IsPicked}
use open_baseten_inference.Benchmark.Sessions.{Session, no_calls}
use open_baseten_inference.Benchmark.Sessions.Tune.{tune-Session}
use open_baseten_inference.Examples.Decimals.{decimals}
use open_baseten_inference.Examples.Scoring.{cfg}

abbrev pub candidate : String → ℕ → CandidatePlan decimals
candidate id tp = record {
  id = id;
  engine = EngineName.vllm;
  gpu_groups = (0 ∷ 1 ∷ []) ∷ [];
  tensor_parallel_size = tp;
  data_parallel_size = 1;
  pipeline_parallel_size = 1;
  replica_count = 1;
  expert_parallel_size = none;
  expert_parallel_enabled = false;
  dp_attention_enabled = false;
  distributed_backend = none;
  context_length = 8192;
  memory_fraction = some 900000;
  max_concurrency = some 16;
  max_num_seqs = some 16;
  launch_settings = "";
  estimated_memory = none;
}

abbrev opening : String → Opened decimals
opening id = if str_eq id "vllm-tp1-x1" then launch_failed else launched

-- the throughput grows up to 8 concurrent requests
abbrev measure : BenchmarkSpec → BenchmarkResult decimals
measure spec = record {
  candidate_id = "vllm-tp2-x1";
  spec = spec;
  successful_requests = 32;
  output_tokens_per_second = min (spec.concurrency) 8 * 50000000;
  latency_p95_ms = spec.concurrency * 40000000;
  ttft_p95_ms = none;
  tpot_p95_ms = none;
  error_rate = 0;
}

abbrev evaluator : Evaluator decimals
evaluator = record {
  on_open = λ calls p. opening p.id;
  on_benchmark = λ calls p spec. measured (measure spec);
  on_close = λ calls p. true;
}

abbrev workload : WorkloadProfile decimals
workload = record {
  objective = throughput;
  expected_concurrency = none;
  latency_constraints = none;
}

abbrev settings : TuningSettings decimals
settings = record {
  max_structural_candidates = 6;
  top_k = 2;
  stage_a_requests = 32;
  sweep_requests = 32;
  final_multiplier = 4;
  memory_tuning = true;
  sweep_start = 4;
  sweep_max = 1024;
  sweep_growth = 2;
  refinement_points = 2;
  memory_step = 40000;
  memory_min_gain = 20000;
  scoring = cfg;
}

abbrev fresh : Tuning decimals
fresh = record { session = none; evaluations = []; calls = [] }

abbrev viable : List (CandidatePlan decimals)
viable = candidate "vllm-tp1-x1" 1 ∷ candidate "vllm-tp2-x1" 2 ∷ []

tune-Session_example :
    Session decimals ((tune decimals evaluator workload settings [] viable fresh).0).calls none
    × (((tune decimals evaluator workload settings [] viable fresh).0).session ≡ none)
tune-Session_example =
    tune-Session decimals evaluator workload settings [] viable fresh no_calls refl

abbrev swept : CandidateEvaluation decimals
swept = record {
  plan = candidate "vllm-tp2-x1" 2;
  stage = Stage.sweeping;
  status = Status.benchmarked;
  results =
      measure (record { concurrency = 4; num_requests = 32; label = Label.sweep })
      ∷ measure (record { concurrency = 8; num_requests = 32; label = Label.sweep })
      ∷ [];
}

abbrev after_sweep : Tuning decimals
after_sweep = record { session = none; evaluations = swept ∷ []; calls = [] }

pick_winner-IsPicked_example :
    let os = operating decimals evaluator workload settings (swept ∷ []) (swept ∷ []) in
    IsPicked decimals os
      (score_results decimals (map (λ (o : Operating decimals). o.point) os) throughput none cfg)
      (pick_winner decimals evaluator workload settings (swept ∷ []) after_sweep).1
pick_winner-IsPicked_example =
    pick_winner-IsPicked decimals evaluator workload settings (swept ∷ []) after_sweep

sweep_points-AscendingFrom_example :
    let points = sweep_points 4 2 20 in
    (geometric 100 2 20 4 ≡ geometric 21 2 20 4)
    × AscendingFrom 0 points
    × All (λ c. c ≤ 20) points
    × (mem_nat 20 points ≡ true)
    × ((ltb 20 4 || mem_nat 4 points) ≡ true)
    × IsClosed 2 20 points points
sweep_points-AscendingFrom_example =
    sweep_points-AscendingFrom 100 4 2 20 (omega arith) (omega arith) (omega arith)
