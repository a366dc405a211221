-- ===== src/Examples/Scoring.antt =====
-- planner/scoring.py on four measurements.
use open_baseten_inference.Prelude.{
  ℕ, ◌*◌, ◌≡◌, refl, Option, none, some, List, [], ◌∷◌, keep, not, sort_by, first_top, ◌==◌,
}
use open_baseten_inference.Schemas.Benchmark.{
  throughput, latency, BenchmarkResult, Label, LatencyConstraints,
}
use open_baseten_inference.Planner.Scoring.{ScoringConfig, score_results, select_best}
use open_baseten_inference.Planner.Scoring.Selection.{IsBest, select_best-IsBest}
use open_baseten_inference.Planner.Sweep.{choose_concurrency}
use open_baseten_inference.Planner.Pareto.{pareto_front}
use open_baseten_inference.Planner.Pareto.Front.{IsFront, pareto_front-IsFront}
use open_baseten_inference.Examples.Decimals.{decimals}

-- concurrency, tokens per second, p95 latency and successful requests
abbrev measured : ℕ → ℕ → ℕ → ℕ → BenchmarkResult decimals
measured c tps ms ok = record {
  candidate_id = "tp1";
  spec = record { concurrency = c; num_requests = 32; label = Label.sweep };
  successful_requests = ok;
  output_tokens_per_second = tps * 1000000;
  latency_p95_ms = ms * 1000000;
  ttft_p95_ms = none;
  tpot_p95_ms = none;
  error_rate = 0;
}

abbrev history : List (BenchmarkResult decimals)
history =
    measured 16 500 900 32 ∷ measured 4 200 300 32 ∷ measured 8 410 450 32 ∷ measured 32 0 0 0 ∷ []

abbrev pub cfg : ScoringConfig decimals
cfg = record {
  max_error_rate = 10000;
  error_penalty_weight = 5000000;
  plateau_min_gain = 20000;
  plateau_latency_rise = 100000;
  throughput_drop_stop = 50000;
}

-- p95 latency of at most 500 ms
abbrev slo : Option (LatencyConstraints decimals)
slo =
    some (record {
      max_p95_ttft_ms = none;
      max_p95_latency_ms = some 500000000;
      max_p95_tpot_ms = none;
    })

select_best-IsBest_example :
    IsBest decimals
      (score_results decimals history throughput slo cfg)
      (select_best decimals (score_results decimals history throughput slo cfg))
select_best-IsBest_example =
    select_best-IsBest decimals (score_results decimals history throughput slo cfg)

-- the point with the highest concurrency within the bound
latency_run : choose_concurrency decimals history latency slo cfg ≡ some (measured 8 410 450 32)
unfolding choose_concurrency sort_by first_top
latency_run = refl

throughput_run :
    choose_concurrency decimals history throughput none cfg ≡ some (measured 16 500 900 32)
unfolding choose_concurrency sort_by
throughput_run = refl

pareto_front-IsFront_example :
    IsFront decimals
      (keep (λ r. not (r.successful_requests == 0)) history)
      (pareto_front decimals history)
pareto_front-IsFront_example = pareto_front-IsFront decimals history
