-- ===== src/Benchmark/Tuner.antt =====
-- benchmark/tuner.py: `_pick_winner`, stages C and D, and `tune`.
use open_baseten_inference.Prelude.{
  decimal, str_append, ℕ, ◌-◌, ◌*◌, Bool, false, not, ◌&&◌, Option, none, some, List, [], ◌∷◌, ◌++◌,
  map, ltb, ◌==◌, if◌then◌else◌, Floats, min_float, max_float, take,
}
use open_baseten_inference.Schemas.Benchmark.{
  Objective, latency, BenchmarkResult, Label, memory, ParetoPoint,
}
use open_baseten_inference.Schemas.Plan.{MemoryEstimate}
use open_baseten_inference.Schemas.Tuning.{
  CandidatePlan, CandidateEvaluation, WorkloadProfile, TuningSettings, benchmarked, failed, Stage,
  same_key, make_spec,
}
use open_baseten_inference.Planner.Scoring.{
  ScoredResult, Selected, score_results, select_best, eligible,
}
use open_baseten_inference.Planner.Sweep.{choose_concurrency, has_slo}
use open_baseten_inference.Planner.Pareto.{pareto_front}
use open_baseten_inference.Benchmark.Tasks.{
  Task, Evaluator, pure, raise, and_then, with_finally, no_viable_plan, crashed, record_evaluation,
  close_current, open_plan, benchmark,
}
use open_baseten_inference.Benchmark.Points.{or_default}
use open_baseten_inference.Benchmark.Structural.{evaluation, run_stage_a, is_empty_list}
use open_baseten_inference.Benchmark.Sweeps.{Sweep, run_point, run_stage_b}

-- 1 GiB
abbrev min_headroom_bytes : ℕ
min_headroom_bytes = 1073741824

module _ (F : Floats) where
  open F use {Float, le, add, sub, mul, div, literal, floor, round_two, tiny}

  -- an evaluation with its operating point
  pub record Operating : Type 0 where
    pub evaluated : CandidateEvaluation F
    pub point : BenchmarkResult F

  -- the results of the evaluations of a plan's topology
  abbrev results_of : CandidatePlan F → List (CandidateEvaluation F) → List (BenchmarkResult F)
  results_of p [] = []
  results_of p (e ∷ es) =
      let rest = results_of p es in if same_key F e.plan p then e.results ++ rest else rest

  abbrev with_point :
      CandidateEvaluation F → Option (BenchmarkResult F) → List Operating → List Operating
  with_point e none os = os
  with_point e (some r) os = record { evaluated = e; point = r } ∷ os

  abbrev pub zip_scores : List Operating → List (ScoredResult F) → List (Operating × ScoredResult F)
  zip_scores (o ∷ os) (s ∷ ss) = (o, s) ∷ zip_scores os ss
  zip_scores _ _ = []

  -- the loop over the zip, up to the pair whose score `is` the winner
  abbrev pub find_winner : ScoredResult F → List (Operating × ScoredResult F) → Task F Operating
  find_winner w [] = raise F no_viable_plan
  find_winner w ((o, s) ∷ pairs) =
      let rest = find_winner w pairs in if s.ref == w.ref then pure F o else rest

  abbrev pub selected : Option (Selected F) → List (Operating × ScoredResult F) → Task F Operating
  selected none pairs = raise F no_viable_plan
  selected (some selection) pairs = find_winner selection.winner pairs

  module _ (env : Evaluator F) (workload : WorkloadProfile F) (settings : TuningSettings F) where
    abbrev pub choose_among : List (BenchmarkResult F) → Option (BenchmarkResult F)
    choose_among rs =
        choose_concurrency F rs workload.objective workload.latency_constraints settings.scoring

    abbrev pub scores : List (BenchmarkResult F) → List (ScoredResult F)
    scores rs = score_results F rs workload.objective workload.latency_constraints settings.scoring

    abbrev pub operating :
        List (CandidateEvaluation F) → List (CandidateEvaluation F) → List Operating
    operating all [] = []
    operating all (e ∷ es) = with_point e (choose_among (results_of e.plan all)) (operating all es)

    -- `_pick_winner` after its first loop
    abbrev pub pick_among : List Operating → Task F Operating
    pick_among [] = raise F no_viable_plan
    pick_among (o ∷ os) =
        let scored = scores (map (λ (x : Operating). x.point) (o ∷ os)) in
        selected (select_best F scored) (zip_scores (o ∷ os) scored)

    unfoldable pub pick_winner : List (CandidateEvaluation F) → Task F Operating
    unfolding same_key choose_concurrency score_results select_best
    pick_winner sweeps s = pick_among (operating s.evaluations sweeps) s

    -- `min(memory_fraction + step, ceiling)` rounded, or nothing where the ceiling is below 0
    abbrev pub raised_fraction : MemoryEstimate F → Float → Option Float
    raised_fraction est old =
        let percent = floor (
          mul (literal (est.device_free_bytes - min_headroom_bytes) est.device_total_bytes)
            (literal 100 1)) in
        if ltb est.device_free_bytes min_headroom_bytes
        then none
        else some (round_two (min_float F (add old settings.memory_step) (literal percent 100)))

    -- a negative ceiling is never above the old fraction
    abbrev pub try_fraction : Float → Option Float → Option Float
    try_fraction old none = none
    try_fraction old (some new) = if le new old then none else some new

    -- the fraction that stage C tries; a device without memory is a `ZeroDivisionError`
    abbrev pub new_fraction :
        Objective → Option Float → Option (MemoryEstimate F) → Task F (Option Float)
    new_fraction latency _ _ = pure F none
    new_fraction _ (some old) (some est) =
        if not settings.memory_tuning
        then pure F none
        else if est.device_total_bytes == 0
        then raise F crashed
        else pure F (try_fraction old (raised_fraction est old))
    new_fraction _ _ _ = pure F none

    abbrev pub tuned : CandidatePlan F → Float → CandidatePlan F
    tuned p f = record p {
      id = str_append p.id (str_append "-mem" (decimal 20 (floor (mul f (literal 100 1)))));
      memory_fraction = some f;
    }

    abbrev pub beyond : Option ℕ → ℕ → Bool
    beyond none c = false
    beyond (some n) c = not (n == 0) && ltb (n * 2) c

    -- the loop over the concurrencies of stage C
    abbrev pub memory_points : CandidatePlan F → Option ℕ → List ℕ → Sweep F → Task F (Sweep F)
    memory_points q limit [] w = pure F w
    memory_points q limit (c ∷ cs) w =
        if beyond limit c
        then pure F w
        else and_then F (run_point F env workload settings q c memory w)
            (λ v. memory_points q limit cs v.0)

    -- the first score and the second: the gain is enough and the second result is eligible
    abbrev pub is_gain : List (ScoredResult F) → Bool
    is_gain (a ∷ b ∷ _) =
        eligible F b
        && le settings.memory_min_gain (div (sub b.score a.score) (max_float F a.score tiny))
    is_gain _ = false

    -- keep the winner, or adopt the new memory fraction
    abbrev pub adopt :
        Operating → CandidateEvaluation F → Option (BenchmarkResult F) → Task F Operating
    adopt best e none = pure F best
    adopt best e (some r) =
        if is_gain (scores (best.point ∷ r ∷ []))
        then pure F (record { evaluated = e; point = r })
        else and_then F (close_current F env) (λ u. pure F best)

    abbrev pub memory_evaluation : CandidatePlan F → Sweep F → CandidateEvaluation F
    memory_evaluation p w =
        evaluation F p Stage.memory (if is_empty_list w.history then failed else benchmarked)
          w.results

    abbrev pub in_memory : Operating → CandidatePlan F → Option (CandidatePlan F) → Task F Operating
    in_memory best p none =
        and_then F (record_evaluation F (evaluation F p Stage.memory failed [])) (λ u. pure F best)
    in_memory best p (some q) =
        let c = ((best.point).spec).concurrency in
        and_then F
          (memory_points q ((best.evaluated).plan).max_concurrency
            (c ∷ c * settings.sweep_growth ∷ []) (record { history = []; results = [] }))
          (λ w.
            and_then F (record_evaluation F (memory_evaluation p w))
              (λ u. adopt best (memory_evaluation p w) (choose_among w.history)))

    abbrev pub with_fraction : Operating → Option Float → Task F Operating
    with_fraction best none = pure F best
    with_fraction best (some f) =
        let p = tuned (best.evaluated).plan f in
        and_then F (close_current F env) (λ u. and_then F (open_plan F env p) (in_memory best p))

    unfoldable pub run_stage_c : Operating → Task F Operating
    unfolding close_current open_plan run_point choose_concurrency score_results
    run_stage_c best =
        let p = (best.evaluated).plan in
        and_then F (new_fraction workload.objective p.memory_fraction p.estimated_memory)
          (with_fraction best)

    abbrev pub confirmed :
        Operating → CandidatePlan F → Option (BenchmarkResult F) → Task F Operating
    confirmed best p none =
        and_then F (record_evaluation F (evaluation F p Stage.final failed [])) (λ u. pure F best)
    confirmed best p (some r) =
        let e = evaluation F p Stage.final benchmarked (r ∷ []) in
        and_then F (record_evaluation F e) (λ u. pure F (record { evaluated = e; point = r }))

    abbrev pub in_final : Operating → CandidatePlan F → Option (CandidatePlan F) → Task F Operating
    in_final best p none =
        and_then F (record_evaluation F (evaluation F p Stage.final failed [])) (λ u. pure F best)
    in_final best p (some q) =
        and_then F
          (benchmark F env q (
            make_spec (or_default p.max_concurrency 1)
              (settings.sweep_requests * settings.final_multiplier) Label.final))
          (confirmed best p)

    abbrev pub at_point : Operating → CandidatePlan F
    at_point best = record ((best.evaluated).plan) {
      max_concurrency = some ((best.point).spec).concurrency;
    }

    unfoldable pub run_stage_d : Operating → Task F Operating
    unfolding open_plan benchmark
    run_stage_d best = and_then F (open_plan F env (at_point best)) (in_final best (at_point best))

    -- what `tune` returns: the winner's plan and measurement, whether it is within the SLO, if there is
    -- one, and the Pareto front of all results
    pub record Outcome : Type 0 where
      pub plan : CandidatePlan F
      pub final_result : BenchmarkResult F
      pub slo_satisfied : Option Bool
      pub front : List (ParetoPoint F)

    abbrev pub slo_of : List (ScoredResult F) → Option Bool
    slo_of [] = none
    slo_of (x ∷ xs) = if has_slo F workload.latency_constraints then some x.slo_satisfied else none

    abbrev pub all_results : List (CandidateEvaluation F) → List (BenchmarkResult F)
    all_results [] = []
    all_results (e ∷ es) = e.results ++ all_results es

    abbrev pub outcome : Operating → Task F Outcome
    outcome best s =
        pure F
          (record {
            plan = at_point best;
            final_result = best.point;
            slo_satisfied = slo_of (scores (best.point ∷ []));
            front = pareto_front F (all_results s.evaluations);
          })
          s

    abbrev pub need_some : List (CandidateEvaluation F) → Task F (List (CandidateEvaluation F))
    need_some [] = raise F no_viable_plan
    need_some (e ∷ es) = pure F (e ∷ es)

    module _ (completed : List (CandidateEvaluation F)) where
      -- the body of the `try` of `tune`
      unfoldable pub stages : List (CandidatePlan F) → Task F Operating
      unfolding run_stage_a run_stage_b pick_winner run_stage_c run_stage_d
      stages candidates =
          and_then F (run_stage_a F env workload settings completed candidates) (λ es.
            and_then F (need_some es) (λ fs.
              and_then F (run_stage_b F env workload settings fs)
                (λ ws. and_then F (pick_winner ws) (λ o. and_then F (run_stage_c o) run_stage_d))))

      abbrev pub tune_some : List (CandidatePlan F) → Task F Outcome
      tune_some [] = raise F no_viable_plan
      tune_some (p ∷ ps) =
          and_then F (with_finally F (stages (p ∷ ps)) (close_current F env)) outcome

      -- `tune`, on the viable candidates of the planning
      unfoldable pub tune : List (CandidatePlan F) → Task F Outcome
      unfolding stages close_current score_results pareto_front
      tune viable = tune_some (take settings.max_structural_candidates viable)
