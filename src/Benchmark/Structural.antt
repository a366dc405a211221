-- ===== src/Benchmark/Structural.antt =====
-- benchmark/tuner.py, stage A: `_stage_a_concurrency`, `_stage_a` and `_rank_structural`.
use open_baseten_inference.Prelude.{
  ℕ, ◌*◌, ◌/◌, max, min, str_eq, Bool, true, false, ◌&&◌, Option, none, some, List, [], ◌∷◌, ◌++◌,
  map, if◌then◌else◌, Floats, sort_by,
}
use open_baseten_inference.Schemas.Benchmark.{Objective, latency, BenchmarkResult, stage_a}
use open_baseten_inference.Schemas.Tuning.{
  CandidatePlan, CandidateEvaluation, WorkloadProfile, TuningSettings, Status, benchmarked, failed,
  Stage, structural, same_launch, make_spec,
}
use open_baseten_inference.Planner.Scoring.{ScoredResult, score_results, eligible}
use open_baseten_inference.Benchmark.Tasks.{
  Task, Evaluator, pure, raise, and_then, crashed, record_evaluation, close_current, open_plan,
  benchmark,
}
use open_baseten_inference.Benchmark.Points.{or_default}

abbrev pub is_empty_list {ℓ} : {A : Type ℓ} → List A → Bool
is_empty_list [] = true
is_empty_list (x ∷ xs) = false

module _ (F : Floats) where
  open F use {le}

  abbrev pub evaluation :
      CandidatePlan F → Stage → Status → List (BenchmarkResult F) → CandidateEvaluation F
  evaluation p g s rs = record { plan = p; stage = g; status = s; results = rs }

  -- `e.results[0]` of each, or nothing where one has no result
  abbrev with_first :
      List (BenchmarkResult F)
      → Option (List (BenchmarkResult F))
      → Option (List (BenchmarkResult F))
  with_first (r ∷ rs) (some firsts) = some (r ∷ firsts)
  with_first _ _ = none

  abbrev pub first_results : List (CandidateEvaluation F) → Option (List (BenchmarkResult F))
  first_results [] = some []
  first_results (e ∷ es) = with_first e.results (first_results es)

  -- an `IndexError` where one has no result
  abbrev pub need_firsts : Option (List (BenchmarkResult F)) → Task F (List (BenchmarkResult F))
  need_firsts none = raise F crashed
  need_firsts (some rs) = pure F rs

  abbrev zipped :
      List (CandidateEvaluation F)
      → List (ScoredResult F)
      → List (CandidateEvaluation F × ScoredResult F)
  zipped (e ∷ es) (s ∷ ss) = (e, s) ∷ zipped es ss
  zipped _ _ = []

  -- the key `(not eligible, -score)`
  abbrev ranks_before :
      CandidateEvaluation F × ScoredResult F → CandidateEvaluation F × ScoredResult F → Bool
  ranks_before (e, s) (d, t) =
      if eligible F s
      then (if eligible F t then le t.score s.score else true)
      else if eligible F t
      then false
      else le t.score s.score

  -- `_rank_structural`
  unfoldable pub rank_structural :
      WorkloadProfile F
      → TuningSettings F
      → List (CandidateEvaluation F)
      → Task F (List (CandidateEvaluation F))
  unfolding score_results sort_by
  rank_structural workload settings es = and_then F (need_firsts (first_results es)) (λ rs. pure F (
      map (λ pair. pair.0)
        (sort_by ranks_before (
          zipped es (
            score_results F rs workload.objective workload.latency_constraints settings.scoring)))))

  module _ (env : Evaluator F) (workload : WorkloadProfile F) (settings : TuningSettings F)
      (completed : List (CandidateEvaluation F)) where
    abbrev with_default : Objective → CandidatePlan F → ℕ
    with_default latency p = 16
    with_default _ p =
        let room = or_default p.max_concurrency (or_default p.max_num_seqs 64 * p.replica_count) in
        max 8 (max (2 * p.replica_count) (min 256 (room / 2)))

    abbrev expected : Option ℕ → ℕ → ℕ
    expected none d = d
    expected (some c) d = c

    unfoldable pub stage_a_concurrency : CandidatePlan F → ℕ
    stage_a_concurrency p =
        expected workload.expected_concurrency (with_default workload.objective p)

    abbrev pub is_structural : CandidateEvaluation F → Bool
    is_structural e = benchmarked_in e.stage e.status
      where
        benchmarked_in : Stage → Status → Bool
        benchmarked_in structural benchmarked = true
        benchmarked_in _ _ = false

    -- the evaluation in `_completed` under an id: the last one
    abbrev pub find_completed :
        CandidatePlan F → List (CandidateEvaluation F) → Option (CandidateEvaluation F)
    find_completed p [] = none
    find_completed p (e ∷ es) =
        later (find_completed p es) (is_structural e && str_eq (e.plan).id p.id) e
      where
        later :
            Option (CandidateEvaluation F)
            → Bool
            → CandidateEvaluation F
            → Option (CandidateEvaluation F)
        later (some d) b e = some d
        later none b e = if b then some e else none

    -- a completed evaluation of the same launch
    abbrev pub prior :
        CandidatePlan F → Option (CandidateEvaluation F) → Option (CandidateEvaluation F)
    prior p none = none
    prior p (some e) = if same_launch F e.plan p then some e else none

    abbrev pub after_benchmark :
        CandidatePlan F → Bool → Option (BenchmarkResult F) → Task F (List (CandidateEvaluation F))
    after_benchmark p last none =
        and_then F (record_evaluation F (evaluation p structural failed []))
          (λ u. and_then F (close_current F env) (λ v. pure F []))
    after_benchmark p last (some r) =
        let e = evaluation p structural benchmarked (r ∷ []) in
        and_then F (record_evaluation F e)
          (λ u. and_then F (if last then pure F tt else close_current F env) (λ v. pure F (e ∷ [])))

    abbrev pub in_session :
        CandidatePlan F → Bool → Option (CandidatePlan F) → Task F (List (CandidateEvaluation F))
    in_session p last none =
        and_then F (record_evaluation F (evaluation p structural failed [])) (λ u. pure F [])
    in_session p last (some q) =
        and_then F
          (benchmark F env q (make_spec (stage_a_concurrency p) settings.stage_a_requests stage_a))
          (after_benchmark p last)

    abbrev pub one_candidate :
        CandidatePlan F
        → Bool
        → Option (CandidateEvaluation F)
        → Task F (List (CandidateEvaluation F))
    one_candidate p last (some e) = and_then F (record_evaluation F e) (λ u. pure F (e ∷ []))
    one_candidate p last none = and_then F (open_plan F env p) (in_session p last)

    -- the loop of `_stage_a`
    abbrev pub each_candidate : List (CandidatePlan F) → Task F (List (CandidateEvaluation F))
    each_candidate [] = pure F []
    each_candidate (p ∷ ps) =
        and_then F (one_candidate p (is_empty_list ps) (prior p (find_completed p completed)))
          (λ es. and_then F (each_candidate ps) (λ rest. pure F (es ++ rest)))

    unfoldable pub run_stage_a : List (CandidatePlan F) → Task F (List (CandidateEvaluation F))
    unfolding stage_a_concurrency same_launch open_plan close_current benchmark
    run_stage_a candidates =
        and_then F (each_candidate candidates)
          (λ es. and_then F (need_firsts (first_results es)) (λ rs. pure F es))
