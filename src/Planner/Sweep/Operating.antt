-- ===== src/Planner/Sweep/Operating.antt =====
-- planner/scoring.py, `choose_concurrency`: what the chosen point is.
use mathlib.Core.List.{Memᴰ}
use open_baseten_inference.Prelude.{
  ◌≡◌, leb, Bool, true, false, Option, none, some, List, [], ◌∷◌, All, Floats, sort_by,
}
use open_baseten_inference.Schemas.Benchmark.{Objective, latency, BenchmarkResult}
use open_baseten_inference.Planner.Scoring.{ScoringConfig}
use open_baseten_inference.Planner.Sweep.{by_concurrency}
use open_baseten_inference.Planner.Sweep.Choice.{tps_le, Walk}

module _ (F : Floats) where
  open F use {Float, le, le_total, le_trans}

  -- a walk up the points in their order, from the first
  abbrev pub WalkUp : ScoringConfig F → List (BenchmarkResult F) → BenchmarkResult F → Type 0
  WalkUp cfg [] d = ⊥
  WalkUp cfg (r ∷ rs) d = Walk F cfg r rs d

  -- What an objective wants of a point among a pool, with the same pool in the order `up`: for latency,
  -- where there are latency bounds, the highest concurrency, and otherwise the lowest p95; else where
  -- the walk up the pool ends, which has at least the throughput that a point of the lowest concurrency
  -- has.
  abbrev pub Preferred :
      ScoringConfig F
      → Objective
      → Bool
      → List (BenchmarkResult F)
      → List (BenchmarkResult F)
      → BenchmarkResult F
      → Type 0
  Preferred cfg latency true up pool d = All (λ x. by_concurrency F x d ≡ true) pool
  Preferred cfg latency false up pool d =
      All (λ x. le d.latency_p95_ms x.latency_p95_ms ≡ true) pool
  Preferred cfg _ _ up pool d =
      WalkUp cfg up d
      × (s : BenchmarkResult F) × Memᴰ s pool
      × All (λ x. by_concurrency F s x ≡ true) pool
      × (tps_le F s d ≡ true)

  abbrev IsOne :
      ScoringConfig F
      → Objective
      → Bool
      → List (BenchmarkResult F)
      → List (BenchmarkResult F)
      → Option (BenchmarkResult F)
      → Type 0
  IsOne cfg objective slo up pool none = ⊥
  IsOne cfg objective slo up pool (some d) = Memᴰ d pool × Preferred cfg objective slo up pool d

  -- the points in ascending concurrency; those of the same concurrency stay in their order
  abbrev pub ascending : List (BenchmarkResult F) → List (BenchmarkResult F)
  ascending = sort_by (λ a b. leb (a.spec).concurrency (b.spec).concurrency)

  -- A choice among those points that are valid and within the SLO, if there are any, and otherwise
  -- among the valid points; nothing if there are none.
  abbrev pub IsChoice :
      ScoringConfig F
      → Objective
      → Bool
      → List (BenchmarkResult F)
      → List (BenchmarkResult F)
      → Option (BenchmarkResult F)
      → Type 0
  IsChoice cfg objective slo (x ∷ xs) points o =
      IsOne cfg objective slo (ascending (x ∷ xs)) (x ∷ xs) o
  IsChoice cfg objective slo [] (x ∷ xs) o =
      IsOne cfg objective false (ascending (x ∷ xs)) (x ∷ xs) o
  IsChoice cfg objective slo [] [] o = o ≡ none

  -- the same points, in another order
  abbrev Same : List (BenchmarkResult F) → List (BenchmarkResult F) → Type 1
  Same xs ys = (P : BenchmarkResult F → Type 0) → (All P xs → All P ys) × (All P ys → All P xs)
