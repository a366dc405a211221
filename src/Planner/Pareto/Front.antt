-- ===== src/Planner/Pareto/Front.antt =====
-- planner/scoring.py, `pareto_front`: what the points on the front are.
use mathlib.Core.List.{Memᴰ}
use open_baseten_inference.Prelude.{
  ◌≡◌, refl, Bool, true, false, not, ◌&&◌, ◌||◌, List, map, arith, keep, any, All, All-map, All-mem,
  All-Memᴰ, Floats, ◌⊎◌, inl, inr, sort_by, sort_by-All, sort_by-back, Sorted, sort_by-Sorted, ◌==◌,
}
use open_baseten_inference.Schemas.Benchmark.{BenchmarkResult, ParetoPoint}
use open_baseten_inference.Planner.Pareto.{dominates, pareto_point, mark, by_latency, pareto_front}
use open_baseten_inference.Planner.Pareto.Beaten.{
  any-all, any-cases, Sorted-map, All-through_map, Mem-map, as_good_trans, point-Covers,
}

module _ (F : Floats) where
  open F use {Float, le, le_total, le_trans}

  -- at least the throughput, at no more latency
  abbrev pub at_least : ParetoPoint F → ParetoPoint F → Bool
  at_least q p = le p.tokens_per_second q.tokens_per_second && le q.p95_ms p.p95_ms

  -- Where a point stands: on the front, where no point has at least its throughput and at most its
  -- latency without being equalled by it in both; or off it, where such a point is on the front.
  abbrev Placed : List (ParetoPoint F) → ParetoPoint F → Bool → Type 0
  Placed front p true = All (λ q. (not (at_least q p) || at_least p q) ≡ true) front
  Placed front p false =
      (q : ParetoPoint F) × Memᴰ q front
      × (q.on_front ≡ true)
      × (at_least q p ≡ true)
      × (at_least p q ≡ false)

  abbrev pub IsPlaced : List (ParetoPoint F) → ParetoPoint F → Type 0
  IsPlaced front p = Placed front p p.on_front

  -- to dominate is to be as good and not equalled
  dominates-at_least :
      (q p : ParetoPoint F) → dominates F q p ≡ (at_least q p && not (at_least p q))
  dominates-at_least q p = ground arith

  not_both : (a b : Bool) → (a && not b) ≡ false → (not a || b) ≡ true
  not_both a b h = ground arith

  -- the points that the front is marked among, and the front before the marks
  module _ (points : List (ParetoPoint F)) (front : List (ParetoPoint F))
      (marked : (P : ParetoPoint F → Type 0) → All P (map (mark F points) points) → All P front)
      (back : All (λ x. Memᴰ x front) (map (mark F points) points)) where
    free-Placed :
        (p : ParetoPoint F) → any (λ r. dominates F r p) points ≡ false → Placed front p true
    free-Placed p h =
        marked (λ q. (not (at_least q p) || at_least p q) ≡ true)
          (All-through_map (λ q. (not (at_least q p) || at_least p q) ≡ true) (mark F points) points
            (All-map (λ r. dominates F r p ≡ false)
              (λ r. (not (at_least r p) || at_least p r) ≡ true)
              (λ r e. not_both (at_least r p) (at_least p r) (cc (dominates-at_least r p))) points
              (any-all (λ r. dominates F r p) points h)))

    dominated-Placed :
        (p d : ParetoPoint F) → Memᴰ d points → dominates F d p ≡ true → Placed front p false
    dominated-Placed p d m h =
        let (q, found, good, free) = point-Covers F points d m in
        (
          mark F points q,
          All-mem (λ x. Memᴰ x front) (map (mark F points) points) back
              (Mem-map (mark F points) points found),
          rw free,
          grind (arith, as_good_trans F q d p),
          grind (arith, as_good_trans F p q d, dominates-at_least d p),
        )

    mark-IsPlaced : (p : ParetoPoint F) → IsPlaced front (mark F points p)
    mark-IsPlaced p = elim (any-cases (λ r. dominates F r p) points) [
      | inl h ↦ rw h (free-Placed p h)
      | inr (h, d, m, e) ↦ rw h (dominated-Placed p d m e)
    ]

  by_latency_total : (a b : ParetoPoint F) → (by_latency F a b ≡ true) ⊎ (by_latency F b a ≡ true)
  by_latency_total a b =
      grind (arith, le_total a.tokens_per_second b.tokens_per_second, le_total a.p95_ms b.p95_ms)

  by_latency_trans :
      (a b c : ParetoPoint F)
      → by_latency F a b ≡ true
      → by_latency F b c ≡ true
      → by_latency F a c ≡ true
  by_latency_trans a b c = grind (
    arith,
    le_trans a.p95_ms b.p95_ms c.p95_ms,
    le_trans c.p95_ms a.p95_ms b.p95_ms,
    le_trans b.p95_ms c.p95_ms a.p95_ms,
    le_total a.p95_ms b.p95_ms,
    le_total b.p95_ms c.p95_ms,
    le_trans c.tokens_per_second b.tokens_per_second a.tokens_per_second,
  )

  -- at most the latency, and where the latencies are the same, at least the throughput
  abbrev pub before : ParetoPoint F → ParetoPoint F → Bool
  before a b = le a.p95_ms b.p95_ms && (not (le b.p95_ms a.p95_ms) || at_least a b)

  by_latency-before : (a b : ParetoPoint F) → by_latency F a b ≡ true → before a b ≡ true
  by_latency-before a b h = grind (arith, le_total a.p95_ms b.p95_ms)

  -- a point shows a result
  pub record Displays (r : BenchmarkResult F) (p : ParetoPoint F) : Type 0 where
    pub same_candidate : p.candidate ≡ r.candidate_id
    pub same_concurrency : p.concurrency ≡ (r.spec).concurrency
    pub same_throughput : p.tokens_per_second ≡ r.output_tokens_per_second
    pub same_latency : p.p95_ms ≡ r.latency_p95_ms

  abbrev pub IsFront : List (BenchmarkResult F) → List (ParetoPoint F) → Type 0
  IsFront results front =
      All (IsPlaced front) front
      × Sorted before front
      × All (λ p. (r : BenchmarkResult F) × Memᴰ r results × Displays r p) front
      × All (λ r. (p : ParetoPoint F) × Memᴰ p front × Displays r p) results

  -- What `pareto_front` returns shows the results with a successful request, each of them and no others.
  -- A point is on the front exactly where none of the points has at least its throughput and at most its
  -- latency without being equalled by it in both; where one has, one that is on the front has. The
  -- points ascend in latency and, where that is the same, do not ascend in throughput.
  pub pareto_front-IsFront :
      (results : List (BenchmarkResult F))
      → IsFront (keep (λ r. not (r.successful_requests == 0)) results) (pareto_front F results)
  unfolding pareto_front
  pareto_front-IsFront results =
      let shown = keep (λ (r : BenchmarkResult F). not (r.successful_requests == 0)) results in
      let points = map (pareto_point F) shown in
      let marked = map (mark F points) points in
      let front = sort_by (by_latency F) marked in
      let back = sort_by-back (λ x. Memᴰ x front) (by_latency F) marked (All-Memᴰ front) in
      let display : (r : BenchmarkResult F) → Displays r (mark F points (pareto_point F r)) = λ r.
        record {
          same_candidate = refl;
          same_concurrency = refl;
          same_throughput = refl;
          same_latency = refl;
        } in
      (
        sort_by-All (IsPlaced front) (by_latency F) marked (
            All-through_map (IsPlaced front) (mark F points) points (
              All-map (λ p. Memᴰ p points) (λ p. IsPlaced front (mark F points p))
                (λ p m.
                  mark-IsPlaced points front (λ P h. sort_by-All P (by_latency F) marked h) back p)
                points (All-Memᴰ points))),
        Sorted-map (by_latency F) before by_latency-before front
            (sort_by-Sorted (by_latency F) by_latency_total by_latency_trans marked),
        sort_by-All (λ p. (r : BenchmarkResult F) × Memᴰ r shown × Displays r p) (by_latency F)
            marked
            (All-through_map (λ p. (r : BenchmarkResult F) × Memᴰ r shown × Displays r p)
              (mark F points) points
              (All-through_map
                (λ p. (r : BenchmarkResult F) × Memᴰ r shown × Displays r (mark F points p))
                (pareto_point F) shown
                (All-map (λ r. Memᴰ r shown)
                  (λ r.
                    (q : BenchmarkResult F) × Memᴰ q shown
                    × Displays q (mark F points (pareto_point F r)))
                  (λ r m. (r, m, display r)) shown (All-Memᴰ shown)))),
        All-map (λ r. Memᴰ r shown) (λ r. (p : ParetoPoint F) × Memᴰ p front × Displays r p)
            (λ r m. (
              mark F points (pareto_point F r),
              All-mem (λ x. Memᴰ x front) marked back
                  (Mem-map (mark F points) points (Mem-map (pareto_point F) shown m)),
              display r,
            ))
            shown (All-Memᴰ shown),
      )
