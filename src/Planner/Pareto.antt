-- ===== src/Planner/Pareto.antt =====
-- src/servepilot/planner/scoring.py: `pareto_front`, over any floats.
mod Beaten
pub mod Front
use open_baseten_inference.Prelude.{
  ℕ, zero, suc, ◌+◌, ◌*◌, String, Bool, true, false, not, ◌&&◌, ◌||◌, Option, none, some, List, [],
  ◌∷◌, ◌++◌, map, ltb, leb, length, ◌==◌, if◌then◌else◌, keep, any, Floats, lt, max_float,
  min_float, zero_float, first_top, sort_by,
}
use open_baseten_inference.Schemas.Benchmark.{
  Objective, throughput, latency, balanced, BenchmarkResult, LatencyConstraints, is_empty,
  ParetoPoint,
}

module _ (F : Floats) where
  open F use {Float, le}

  -- as good in both measures
  abbrev pub as_good : ParetoPoint F → ParetoPoint F → Bool
  as_good q p = le p.tokens_per_second q.tokens_per_second && le q.p95_ms p.p95_ms

  -- as good, and better in one; a point never dominates itself, so the source's `q is p` is no case
  abbrev pub dominates : ParetoPoint F → ParetoPoint F → Bool
  dominates q p =
      as_good q p && (lt F p.tokens_per_second q.tokens_per_second || lt F q.p95_ms p.p95_ms)

  abbrev pub pareto_point : BenchmarkResult F → ParetoPoint F
  pareto_point r = record {
    candidate = r.candidate_id;
    concurrency = (r.spec).concurrency;
    tokens_per_second = r.output_tokens_per_second;
    p95_ms = r.latency_p95_ms;
    on_front = true;
  }

  abbrev pub mark : List (ParetoPoint F) → ParetoPoint F → ParetoPoint F
  mark points p = record p { on_front = not (any (λ q. dominates q p) points) }

  -- the key `(latency_p95_ms, -output_tokens_per_second)`
  abbrev pub by_latency : ParetoPoint F → ParetoPoint F → Bool
  by_latency a b =
      lt F a.p95_ms b.p95_ms || (le a.p95_ms b.p95_ms && le b.tokens_per_second a.tokens_per_second)

  unfoldable pub pareto_front : List (BenchmarkResult F) → List (ParetoPoint F)
  pareto_front results =
      let points = map pareto_point (keep (λ r. not (r.successful_requests == 0)) results) in
      sort_by by_latency (map (mark points) points)
