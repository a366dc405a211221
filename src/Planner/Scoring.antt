-- ===== src/Planner/Scoring.antt =====
-- src/servepilot/planner/scoring.py, over any floats. Texts of reasons and notes are left out or are
-- constructors. `sum` over the reported ratios is written out.
pub mod Selection
use open_baseten_inference.Prelude.{
  ℕ, zero, suc, ◌+◌, ◌*◌, String, Bool, true, false, not, ◌&&◌, ◌||◌, Option, none, some, List, [],
  ◌∷◌, ◌++◌, map, ltb, leb, length, ◌==◌, if◌then◌else◌, keep, any, Floats, lt, max_float,
  min_float, zero_float, first_top, sort_by,
}
use open_baseten_inference.Schemas.Benchmark.{
  Objective, throughput, latency, balanced, BenchmarkResult, LatencyConstraints, is_empty,
  ParetoPoint,
}

module _ (F : Floats) where
  open F use {Float, le, add, sub, mul, div, sqrt, literal, tiny}

  pub record ScoringConfig : Type 0 where
    pub max_error_rate : Float
    pub error_penalty_weight : Float
    pub plateau_min_gain : Float
    pub plateau_latency_rise : Float
    pub throughput_drop_stop : Float

  -- `ref` is which object it is, as `is` compares it: its place among those that are made together
  pub record ScoredResult : Type 0 where
    pub ref : ℕ
    pub result : BenchmarkResult F
    pub score : Float
    pub valid : Bool
    pub slo_satisfied : Bool

  abbrev pub eligible : ScoredResult → Bool
  eligible s = s.valid && s.slo_satisfied

  -- a bound that is set and not met; a measurement that is missing cannot meet it
  abbrev pub exceeds : Option Float → Option Float → Bool
  exceeds none measured = false
  exceeds (some limit) none = true
  exceeds (some limit) (some value) = lt F limit value

  -- whether `slo_violations` has an entry
  unfoldable pub violates_slo : BenchmarkResult F → Option (LatencyConstraints F) → Bool
  violates_slo r none = false
  violates_slo r (some slo) =
      not (is_empty F slo)
      && (exceeds slo.max_p95_ttft_ms r.ttft_p95_ms
          || (exceeds slo.max_p95_latency_ms (some r.latency_p95_ms)
              || exceeds slo.max_p95_tpot_ms r.tpot_p95_ms))

  unfoldable pub error_factor : BenchmarkResult F → ScoringConfig → Float
  error_factor r cfg =
      max_float F (zero_float F) (sub (literal 1 1) (mul cfg.error_penalty_weight r.error_rate))

  unfoldable pub is_valid : BenchmarkResult F → ScoringConfig → Bool
  is_valid r cfg = not (r.successful_requests == 0) && not (lt F cfg.max_error_rate r.error_rate)

  -- `_ratio`
  unfoldable pub ratio : Option Float → Option Float → Option Float
  ratio none value = none
  ratio (some best) none = none
  ratio (some best) (some value) = if le value (zero_float F) then none else some (div best value)

  -- `max` and `min` over a generator with `default=None`
  abbrev pub max_of : List Float → Option Float
  max_of [] = none
  max_of (x ∷ xs) = some (first_top le x xs)

  abbrev pub min_of : List Float → Option Float
  min_of [] = none
  min_of (x ∷ xs) = some (first_top (λ a b. le b a) x xs)

  -- the values that are there
  abbrev pub present : List (Option Float) → List Float
  present [] = []
  present (none ∷ xs) = present xs
  present (some x ∷ xs) = x ∷ present xs

  -- what the scores are normalised by, over the valid results
  pub record Bests : Type 0 where
    pub tps : Option Float
    pub lat : Option Float
    pub ttft : Option Float
    pub tpot : Option Float

  unfoldable pub bests : List (BenchmarkResult F) → Bests
  unfolding first_top
  bests valid = record {
    tps = max_of (map (λ r. r.output_tokens_per_second) valid);
    lat = min_of (keep (λ x. lt F (zero_float F) x) (map (λ r. r.latency_p95_ms) valid));
    ttft = min_of (present (map (λ r. r.ttft_p95_ms) valid));
    tpot = min_of (present (map (λ r. r.tpot_p95_ms) valid));
  }

  -- the weighted ratios that are there: the sum of the weights and the weighted sum
  abbrev pub weigh : Float → Option Float → Float × Float → Float × Float
  weigh w none (weights, total) = (weights, total)
  weigh w (some v) (weights, total) = (add weights w, add total (mul w v))

  abbrev pub or_zero : Option Float → Float
  or_zero none = zero_float F
  or_zero (some x) = x

  -- `total / total_w if total_w else 0.0`
  abbrev pub mean : Float × Float → Float
  mean (weights, total) = if le weights (zero_float F) then zero_float F else div total weights

  -- `tps / best_tps if best_tps else 0.0`
  abbrev pub throughput_norm : Option Float → Float → Float
  throughput_norm none tps = zero_float F
  throughput_norm (some best) tps =
      if le best (zero_float F) && le (zero_float F) best then zero_float F else div tps best

  -- the score of one result before the factor
  unfoldable pub base_score : Objective → Bests → BenchmarkResult F → Float
  unfolding ratio
  base_score throughput b r = r.output_tokens_per_second
  base_score latency b r = mean (
      weigh (literal 1 4) (ratio b.tpot r.tpot_p95_ms) (
        weigh (literal 1 4) (ratio b.ttft r.ttft_p95_ms)
          (weigh (literal 1 2) (ratio b.lat (some r.latency_p95_ms)) (zero_float F, zero_float F))))
  base_score balanced b r = sqrt (
      mul (max_float F (throughput_norm b.tps r.output_tokens_per_second) (zero_float F))
        (max_float F (or_zero (ratio b.lat (some r.latency_p95_ms))) (zero_float F)))

  abbrev pub scored_one :
      Objective
      → Option (LatencyConstraints F)
      → ScoringConfig
      → Bests
      → ℕ
      → BenchmarkResult F
      → ScoredResult
  scored_one objective slo cfg b n r = record {
    ref = n;
    result = r;
    score = mul (base_score objective b r) (error_factor r cfg);
    valid = is_valid r cfg;
    slo_satisfied = not (violates_slo r slo);
  }

  -- the loop over the results, from object number `n` on
  abbrev pub scored_from :
      (ℕ → BenchmarkResult F → ScoredResult) → ℕ → List (BenchmarkResult F) → List ScoredResult
  scored_from score n [] = []
  scored_from score n (r ∷ rs) = score n r ∷ scored_from score (suc n) rs

  unfoldable pub score_results :
      List (BenchmarkResult F)
      → Objective
      → Option (LatencyConstraints F)
      → ScoringConfig
      → List ScoredResult
  unfolding bests is_valid base_score error_factor violates_slo
  score_results results objective slo cfg =
      let b = bests (keep (λ r. is_valid r cfg) results) in
      scored_from (scored_one objective slo cfg b) 0 results

  pub record Selected : Type 0 where
    pub winner : ScoredResult
    pub meets_slo : Bool

  abbrev pub by_score : ScoredResult → ScoredResult → Bool
  by_score a b = le a.score b.score

  -- the best of a pool, if there is one
  abbrev pub best_of : Bool → List ScoredResult → Option Selected
  best_of ok [] = none
  best_of ok (s ∷ ss) = some (record { winner = first_top by_score s ss; meets_slo = ok })

  abbrev pub or_else {ℓ} : {A : Type ℓ} → Option A → Option A → Option A
  or_else none o = o
  or_else (some a) o = some a

  unfoldable pub select_best : List ScoredResult → Option Selected
  select_best scored =
      or_else (best_of true (keep eligible scored)) (best_of false (keep (λ s. s.valid) scored))
