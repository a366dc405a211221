-- ===== src/Planner/Sweep.antt =====
-- src/servepilot/planner/scoring.py: `should_continue_sweep` and `choose_concurrency`, over any floats.
-- Reasons are constructors or left out.
mod Choice
pub mod Operating
use open_baseten_inference.Prelude.{
  ℕ, zero, suc, ◌+◌, ◌*◌, String, Bool, true, false, not, ◌&&◌, ◌||◌, Option, none, some, List, [],
  ◌∷◌, ◌++◌, map, ltb, leb, length, ◌==◌, if◌then◌else◌, keep, any, Floats, lt, max_float,
  min_float, zero_float, first_top, sort_by,
}
use open_baseten_inference.Schemas.Benchmark.{
  Objective, throughput, latency, balanced, BenchmarkResult, LatencyConstraints, is_empty,
  ParetoPoint,
}
use open_baseten_inference.Planner.Scoring.{ScoringConfig, is_valid, violates_slo}

module _ (F : Floats) where
  open F use {Float, le, sub, mul, div, literal, tiny}

  -- the reasons to stop a sweep, or to go on
  pub data Decision : Type 0 where
    no_data improving few_points : Decision
    failures_appeared slo_violated throughput_dropped plateau flat : Decision

  abbrev pub continues : Decision → Bool
  continues no_data = true
  continues improving = true
  continues few_points = true
  continues _ = false

  -- `(b - a) / max(a, 1e-9)`
  abbrev pub gain : Float → Float → Float
  gain a b = div (sub b a) (max_float F a tiny)

  abbrev pub tps_gain : BenchmarkResult F → BenchmarkResult F → Float
  tps_gain a b = gain a.output_tokens_per_second b.output_tokens_per_second

  -- less gain than the plateau rule wants, for more latency than it allows
  abbrev pub is_plateau : ScoringConfig F → BenchmarkResult F → BenchmarkResult F → Bool
  is_plateau cfg a b =
      lt F (tps_gain a b) cfg.plateau_min_gain
      && lt F cfg.plateau_latency_rise (gain a.latency_p95_ms b.latency_p95_ms)

  -- the highest throughput, with the first result given
  abbrev pub highest : BenchmarkResult F → List (BenchmarkResult F) → Float
  highest r rs =
      (first_top (λ a b. le a.output_tokens_per_second b.output_tokens_per_second) r
        rs).output_tokens_per_second

  -- two small gains in a row; `before` is the history before the last two results, the latest first
  abbrev pub is_flat :
      ScoringConfig F → BenchmarkResult F → BenchmarkResult F → List (BenchmarkResult F) → Bool
  is_flat cfg last prev [] = false
  is_flat cfg last prev (r ∷ before) =
      lt F (tps_gain prev last) cfg.plateau_min_gain && lt F (tps_gain r prev) cfg.plateau_min_gain

  -- the tests on the throughput, for a history of at least two, the latest first
  abbrev pub trend : ScoringConfig F → BenchmarkResult F → List (BenchmarkResult F) → Decision
  trend cfg last [] = few_points
  trend cfg last (prev ∷ before) =
      if lt F last.output_tokens_per_second
        (mul (highest last (prev ∷ before)) (sub (literal 1 1) cfg.throughput_drop_stop))
      then throughput_dropped
      else if is_plateau cfg prev last
      then plateau
      else if is_flat cfg last prev before
      then flat
      else improving

  -- `should_continue_sweep`, on the history with the latest result first
  unfoldable pub should_continue_sweep :
      List (BenchmarkResult F) → Option (LatencyConstraints F) → ScoringConfig F → Decision
  unfolding is_valid violates_slo
  should_continue_sweep [] slo cfg = no_data
  should_continue_sweep (last ∷ before) slo cfg =
      if not (is_valid F last cfg)
      then failures_appeared
      else if violates_slo F last slo
      then slo_violated
      else trend cfg last before

  abbrev pub by_concurrency : BenchmarkResult F → BenchmarkResult F → Bool
  by_concurrency a b = leb (a.spec).concurrency (b.spec).concurrency

  -- the walk up the concurrencies under the plateau rule
  unfoldable pub climb :
      ScoringConfig F → BenchmarkResult F → List (BenchmarkResult F) → BenchmarkResult F
  climb cfg current [] = current
  climb cfg current (nxt ∷ rest) =
      climb cfg
        (if le (tps_gain current nxt) (zero_float F)
          then current
          else if is_plateau cfg current nxt
          then current
          else nxt)
        rest

  -- `slo is not None and not slo.is_empty`
  abbrev pub has_slo : Option (LatencyConstraints F) → Bool
  has_slo none = false
  has_slo (some slo) = not (is_empty F slo)

  -- the operating point among the pool, which is `eligible` itself where `ok`
  abbrev pub operate :
      Objective
      → Bool
      → ScoringConfig F
      → BenchmarkResult F
      → List (BenchmarkResult F)
      → BenchmarkResult F
  operate latency true cfg r rs = first_top by_concurrency r rs
  operate latency false cfg r rs = first_top (λ a b. le b.latency_p95_ms a.latency_p95_ms) r rs
  operate throughput ok cfg r rs = climb cfg r rs
  operate balanced ok cfg r rs = climb cfg r rs

  -- `eligible or points`: with the points within the SLO, if there are any
  abbrev pub choose :
      Objective
      → Bool
      → ScoringConfig F
      → List (BenchmarkResult F)
      → List (BenchmarkResult F)
      → Option (BenchmarkResult F)
  choose objective slo cfg (r ∷ rs) points = some (operate objective slo cfg r rs)
  choose objective slo cfg [] (r ∷ rs) = some (operate objective false cfg r rs)
  choose objective slo cfg [] [] = none

  unfoldable pub choose_concurrency :
      List (BenchmarkResult F)
      → Objective
      → Option (LatencyConstraints F)
      → ScoringConfig F
      → Option (BenchmarkResult F)
  unfolding is_valid violates_slo climb
  choose_concurrency history objective slo cfg =
      let points = sort_by by_concurrency (keep (λ r. is_valid F r cfg) history) in
      choose objective (has_slo slo) cfg (keep (λ r. not (violates_slo F r slo)) points) points
