-- ===== src/Benchmark/Sweeps.antt =====
-- benchmark/tuner.py, stage B: `_run_point`, `_sweep_throughput`, `_sweep_latency` and `_stage_b`.
use open_baseten_inference.Prelude.{
  ℕ, suc, ◌+◌, ◌-◌, ◌*◌, ◌/◌, Bool, true, false, not, ◌&&◌, ◌||◌, Option, none, some, List, [], ◌∷◌,
  ◌++◌, map, ltb, ◌==◌, mem_nat, if◌then◌else◌, Floats, sort_by, keep, any, take, get_elem?, length,
}
use open_baseten_inference.Schemas.Benchmark.{
  Objective, throughput, latency, balanced, BenchmarkResult, Label, stage_a, sweep, refine,
  latency_point,
}
use open_baseten_inference.Schemas.Tuning.{
  CandidatePlan, CandidateEvaluation, WorkloadProfile, TuningSettings, benchmarked, failed,
  sweeping, same_key, make_spec,
}
use open_baseten_inference.Planner.Sweep.{by_concurrency, has_slo, should_continue_sweep, continues}
use open_baseten_inference.Benchmark.Tasks.{
  Task, Evaluator, pure, and_then, record_evaluation, open_plan, benchmark,
}
use open_baseten_inference.Benchmark.Points.{or_default, upper_bound, sweep_points, geometric}
use open_baseten_inference.Benchmark.Structural.{evaluation, rank_structural, is_empty_list}

abbrev pub is_stage_a : Label → Bool
is_stage_a stage_a = true
is_stage_a _ = false

module _ (F : Floats) where
  open F use {le}

  -- the lists that `_run_point` appends to: `history` and the evaluation's results
  pub record Sweep : Type 0 where
    pub history : List (BenchmarkResult F)
    pub results : List (BenchmarkResult F)

  -- whether a concurrency was measured after stage A
  abbrev pub was_run : ℕ → List (BenchmarkResult F) → Bool
  was_run c history =
      any
        (λ (r : BenchmarkResult F). ((r.spec).concurrency == c) && not (is_stage_a (r.spec).label))
        history

  abbrev pub gained : Sweep → Option (BenchmarkResult F) → Sweep × Option (BenchmarkResult F)
  gained w none = (w, none)
  gained w (some r) =
      (record { history = w.history ++ r ∷ []; results = w.results ++ r ∷ [] }, some r)

  -- the best throughput and its place, from the first result on
  abbrev best_place : BenchmarkResult F → ℕ → ℕ → List (BenchmarkResult F) → BenchmarkResult F × ℕ
  best_place best at i [] = (best, at)
  best_place best at i (r ∷ rs) =
      if le r.output_tokens_per_second best.output_tokens_per_second
      then best_place best at (suc i) rs
      else best_place r i (suc i) rs

  abbrev half_way : BenchmarkResult F → Option (BenchmarkResult F) → List ℕ
  half_way best none = []
  half_way best (some r) = ((best.spec).concurrency + (r.spec).concurrency) / 2 ∷ []

  -- the concurrencies half way to the neighbours of the best result
  abbrev pub neighbours : List (BenchmarkResult F) → List ℕ
  neighbours [] = []
  neighbours (r ∷ rs) =
      let (best, at) = best_place r 0 1 rs in
      half_way best (get_elem? (r ∷ rs) (at + 1))
      ++ half_way best (if at == 0 then none else get_elem? (r ∷ rs) (at - 1))

  -- the points of the refinement, over the successful results
  abbrev pub refinements : ℕ → List (BenchmarkResult F) → List ℕ
  refinements limit valid =
      if ltb (length valid) 2 || (limit == 0)
      then []
      else keep
          (λ c.
            not (mem_nat c (map (λ (r : BenchmarkResult F). (r.spec).concurrency) valid))
            && not (c == 0))
          (take limit (neighbours valid))

  unfoldable pub refinement_points : ℕ → List (BenchmarkResult F) → List ℕ
  unfolding sort_by
  refinement_points limit history = refinements limit (
      sort_by (by_concurrency F)
        (keep (λ (r : BenchmarkResult F). not (r.successful_requests == 0)) history))

  module _ (env : Evaluator F) (workload : WorkloadProfile F) (settings : TuningSettings F) where
    -- `_run_point`, in the session of a plan
    unfoldable pub run_point :
        CandidatePlan F → ℕ → Label → Sweep → Task F (Sweep × Option (BenchmarkResult F))
    unfolding benchmark
    run_point q c label w =
        if was_run c w.history
        then pure F (w, none)
        else and_then F (benchmark F env q (make_spec c settings.sweep_requests label))
            (λ m. pure F (gained w m))

    -- whether a sweep goes on after these results, the latest first
    unfoldable pub goes_on : List (BenchmarkResult F) → Bool
    unfolding should_continue_sweep
    goes_on seen =
        continues F (should_continue_sweep F seen workload.latency_constraints settings.scoring)

    -- what the loop does with a point: without a result it skips the point or ends
    abbrev pub after_point :
        Bool
        → List (BenchmarkResult F)
        → (List (BenchmarkResult F) → Sweep → Task F Sweep)
        → Sweep × Option (BenchmarkResult F)
        → Task F Sweep
    after_point skips seen again (v, none) = if skips then again seen v else pure F v
    after_point skips seen again (v, some r) =
        if goes_on (r ∷ seen) then again (r ∷ seen) v else pure F v

    -- the loop over the points, on the results of this loop, the latest first
    abbrev pub climb_points :
        CandidatePlan F → Bool → List ℕ → List (BenchmarkResult F) → Sweep → Task F Sweep
    climb_points q skips [] seen w = pure F w
    climb_points q skips (c ∷ cs) seen w =
        and_then F (run_point q c sweep w) (after_point skips seen (climb_points q skips cs))

    abbrev pub refine_points : CandidatePlan F → List ℕ → Sweep → Task F Sweep
    refine_points q [] w = pure F w
    refine_points q (c ∷ cs) w = and_then F (run_point q c refine w) (λ v. refine_points q cs v.0)

    abbrev pub plan_upper : CandidatePlan F → ℕ
    plan_upper p = upper_bound settings.sweep_max p.max_concurrency

    unfoldable pub sweep_throughput : CandidatePlan F → CandidatePlan F → Sweep → Task F Sweep
    unfolding run_point goes_on refinement_points sweep_points
    sweep_throughput q p w =
        and_then F
          (climb_points q true
            (sweep_points settings.sweep_start settings.sweep_growth (plan_upper p)) [] w)
          (λ v. refine_points q (refinement_points settings.refinement_points v.history) v)

    abbrev pub reversed : List (BenchmarkResult F) → List (BenchmarkResult F)
    reversed [] = []
    reversed (r ∷ rs) = reversed rs ++ r ∷ []

    abbrev pub base_concurrency : ℕ
    base_concurrency = or_default workload.expected_concurrency 16

    -- the values of `c` above the base
    abbrev pub raised_points : CandidatePlan F → List ℕ
    raised_points p =
        geometric (suc (plan_upper p)) settings.sweep_growth (plan_upper p)
          (base_concurrency * settings.sweep_growth)

    abbrev pub at_base : Sweep → List (BenchmarkResult F)
    at_base v =
        reversed
          (keep (λ (r : BenchmarkResult F). (r.spec).concurrency == base_concurrency) v.history)

    unfoldable pub sweep_latency : CandidatePlan F → CandidatePlan F → Sweep → Task F Sweep
    unfolding run_point goes_on geometric
    sweep_latency q p w = and_then F (run_point q base_concurrency latency_point w) (λ v.
        if has_slo F workload.latency_constraints
        then climb_points q false (raised_points p) (at_base v.0) v.0
        else pure F v.0)

    abbrev pub sweep_by : Objective → CandidatePlan F → CandidatePlan F → Sweep → Task F Sweep
    sweep_by latency q p w = sweep_latency q p w
    sweep_by throughput q p w = sweep_throughput q p w
    sweep_by balanced q p w = sweep_throughput q p w

    abbrev pub swept : CandidatePlan F → Sweep → CandidateEvaluation F
    swept p w =
        evaluation F p sweeping
          (if is_empty_list w.results && is_empty_list w.history then failed else benchmarked)
          w.results

    abbrev pub in_sweep :
        CandidateEvaluation F → Option (CandidatePlan F) → Task F (List (CandidateEvaluation F))
    in_sweep e none =
        and_then F (record_evaluation F (evaluation F e.plan sweeping failed [])) (λ u. pure F [])
    in_sweep e (some q) =
        and_then F
          (sweep_by workload.objective q e.plan (record { history = e.results; results = [] }))
          (λ w.
            and_then F (record_evaluation F (swept e.plan w)) (λ u. pure F (swept e.plan w ∷ [])))

    -- the loop of `_stage_b`
    abbrev pub each_sweep : List (CandidateEvaluation F) → Task F (List (CandidateEvaluation F))
    each_sweep [] = pure F []
    each_sweep (e ∷ es) =
        and_then F (and_then F (open_plan F env e.plan) (in_sweep e))
          (λ ws. and_then F (each_sweep es) (λ rest. pure F (ws ++ rest)))

    -- the candidate whose session is open goes first: a stable sort on one test
    abbrev pub open_first :
        Option (CandidatePlan F) → List (CandidateEvaluation F) → List (CandidateEvaluation F)
    open_first none es = es
    open_first (some q) es =
        keep (λ (e : CandidateEvaluation F). same_key F e.plan q) es
        ++ keep (λ (e : CandidateEvaluation F). not (same_key F e.plan q)) es

    -- where every relaunch failed, the measurements of stage A stand in
    abbrev pub or_ranked :
        List (CandidateEvaluation F) → List (CandidateEvaluation F) → List (CandidateEvaluation F)
    or_ranked ranked [] = ranked
    or_ranked ranked (w ∷ ws) = w ∷ ws

    abbrev pub sweep_ranked : List (CandidateEvaluation F) → Task F (List (CandidateEvaluation F))
    sweep_ranked ranked s =
        let ordered = open_first s.session ranked in
        and_then F (each_sweep ordered) (λ ws. pure F (or_ranked ordered ws)) s

    unfoldable pub run_stage_b :
        List (CandidateEvaluation F) → Task F (List (CandidateEvaluation F))
    unfolding rank_structural same_key open_plan sweep_throughput sweep_latency
    run_stage_b es =
        and_then F (rank_structural F workload settings es)
          (λ ranked. sweep_ranked (take settings.top_k ranked))
