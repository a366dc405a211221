-- ===== src/Benchmark/Sessions/Sweeps.antt =====
-- benchmark/tuner.py: stage B keeps its sessions in order.
use open_baseten_inference.Prelude.{
  ℕ, Bool, true, false, Option, none, some, List, [], ◌∷◌, Floats, if_intro, if◌then◌else◌, take,
}
use open_baseten_inference.Schemas.Benchmark.{
  BenchmarkResult, Objective, throughput, latency, balanced, sweep, refine, latency_point, Label,
}
use open_baseten_inference.Schemas.Tuning.{
  CandidatePlan, CandidateEvaluation, WorkloadProfile, TuningSettings, make_spec,
}
use open_baseten_inference.Planner.Sweep.{has_slo}
use open_baseten_inference.Benchmark.Tasks.{
  Task, Evaluator, pure, and_then, record_evaluation, open_plan, benchmark,
}
use open_baseten_inference.Benchmark.Points.{sweep_points}
use open_baseten_inference.Benchmark.Structural.{need_firsts, first_results, rank_structural}
use open_baseten_inference.Benchmark.Sweeps.{
  Sweep, was_run, gained, run_point, goes_on, after_point, climb_points, refine_points,
  refinement_points, sweep_throughput, sweep_latency, sweep_by, swept, in_sweep, each_sweep,
  open_first, or_ranked, sweep_ranked, run_stage_b, plan_upper, base_concurrency, raised_points,
  at_base,
}
use open_baseten_inference.Benchmark.Sessions.{Keeps, KeepsAt, benchmark-KeepsAt}
use open_baseten_inference.Benchmark.Sessions.Structural.{
  then_Keeps, then_KeepsAt, session_then, open_then, recorded_Keeps, appended_Keeps, firsts_Keep,
}

module _ (F : Floats) where
  module _ (env : Evaluator F) (workload : WorkloadProfile F) (settings : TuningSettings F) where
    pub run_point-KeepsAt :
        (q : CandidatePlan F) (c : ℕ) (label : Label) (w : Sweep F)
        → KeepsAt F q (run_point F env workload settings q c label w)
    unfolding run_point
    run_point-KeepsAt q c label w =
        let spec = make_spec c settings.sweep_requests label in
        if_intro (λ (m : Task F (Sweep F × Option (BenchmarkResult F))). KeepsAt F q m)
          (was_run F c w.history) {x = pure F (w, none)}
          {y = and_then F (benchmark F env q spec) (λ m. pure F (gained F w m))} (λ s h. h)
          (then_KeepsAt F q (benchmark F env q spec) (λ m. pure F (gained F w m))
            (benchmark-KeepsAt F env q spec) (λ m s h. h))

    after_point-KeepsAt :
        (q : CandidatePlan F) (skips : Bool) (seen : List (BenchmarkResult F))
        (again : List (BenchmarkResult F) → Sweep F → Task F (Sweep F))
        → ((rs : List (BenchmarkResult F)) (v : Sweep F) → KeepsAt F q (again rs v))
        → (x : Sweep F × Option (BenchmarkResult F))
        → KeepsAt F q (after_point F env workload settings skips seen again x)
    after_point-KeepsAt q skips seen again k (v, none) =
        if_intro (λ (m : Task F (Sweep F)). KeepsAt F q m) skips {x = again seen v} {y = pure F v}
          (k seen v) (λ s h. h)
    after_point-KeepsAt q skips seen again k (v, some r) =
        if_intro (λ (m : Task F (Sweep F)). KeepsAt F q m)
          (goes_on F env workload settings (r ∷ seen)) {x = again (r ∷ seen) v} {y = pure F v}
          (k (r ∷ seen) v) (λ s h. h)

    climb_points-KeepsAt :
        (q : CandidatePlan F) (skips : Bool) (cs : List ℕ) (seen : List (BenchmarkResult F))
        (w : Sweep F)
        → KeepsAt F q (climb_points F env workload settings q skips cs seen w)
    climb_points-KeepsAt q skips [] seen w = λ s h. h
    climb_points-KeepsAt q skips (c ∷ cs) seen w =
        then_KeepsAt F q (run_point F env workload settings q c sweep w)
          (after_point F env workload settings skips seen
            (climb_points F env workload settings q skips cs))
          (run_point-KeepsAt q c sweep w)
          (after_point-KeepsAt q skips seen (climb_points F env workload settings q skips cs)
            (climb_points-KeepsAt q skips cs))

    refine_points-KeepsAt :
        (q : CandidatePlan F) (cs : List ℕ) (w : Sweep F)
        → KeepsAt F q (refine_points F env workload settings q cs w)
    refine_points-KeepsAt q [] w = λ s h. h
    refine_points-KeepsAt q (c ∷ cs) w =
        then_KeepsAt F q (run_point F env workload settings q c refine w)
          (λ v. refine_points F env workload settings q cs v.0) (run_point-KeepsAt q c refine w)
          (λ v. refine_points-KeepsAt q cs v.0)

    sweep_throughput-KeepsAt :
        (q p : CandidatePlan F) (w : Sweep F)
        → KeepsAt F q (sweep_throughput F env workload settings q p w)
    unfolding sweep_throughput
    sweep_throughput-KeepsAt q p w =
        let cs =
          sweep_points settings.sweep_start settings.sweep_growth
            (plan_upper F env workload settings p) in
        then_KeepsAt F q (climb_points F env workload settings q true cs [] w)
          (λ v.
            refine_points F env workload settings q
              (refinement_points F settings.refinement_points v.history) v)
          (climb_points-KeepsAt q true cs [] w)
          (λ v.
            refine_points-KeepsAt q (refinement_points F settings.refinement_points v.history) v)

    sweep_latency-KeepsAt :
        (q p : CandidatePlan F) (w : Sweep F)
        → KeepsAt F q (sweep_latency F env workload settings q p w)
    unfolding sweep_latency
    sweep_latency-KeepsAt q p w =
        let base = base_concurrency F env workload settings in
        let cs = raised_points F env workload settings p in
        let above = λ (v : Sweep F × Option (BenchmarkResult F)).
          climb_points F env workload settings q false cs (at_base F env workload settings v.0)
            v.0 in
        then_KeepsAt F q (run_point F env workload settings q base latency_point w)
          (λ v. if has_slo F workload.latency_constraints then above v else pure F v.0)
          (run_point-KeepsAt q base latency_point w)
          (λ v.
            if_intro (λ (m : Task F (Sweep F)). KeepsAt F q m)
              (has_slo F workload.latency_constraints) {x = above v} {y = pure F v.0}
              (climb_points-KeepsAt q false cs (at_base F env workload settings v.0) v.0)
              (λ s h. h))

    sweep_by-KeepsAt :
        (objective : Objective) (q p : CandidatePlan F) (w : Sweep F)
        → KeepsAt F q (sweep_by F env workload settings objective q p w)
    sweep_by-KeepsAt latency q p w = sweep_latency-KeepsAt q p w
    sweep_by-KeepsAt throughput q p w = sweep_throughput-KeepsAt q p w
    sweep_by-KeepsAt balanced q p w = sweep_throughput-KeepsAt q p w

    each_sweep-Keeps :
        (es : List (CandidateEvaluation F)) → Keeps F (each_sweep F env workload settings es)
    each_sweep-Keeps [] = λ s h. h
    each_sweep-Keeps (e ∷ es) =
        appended_Keeps F (and_then F (open_plan F env e.plan) (in_sweep F env workload settings e))
          (each_sweep F env workload settings es)
          (open_then F env e.plan (in_sweep F env workload settings e) (λ s h. h)
            (λ q.
              let start : Sweep F = record { history = e.results; results = [] } in
              session_then F q (sweep_by F env workload settings workload.objective q e.plan start)
                (λ w.
                  and_then F (record_evaluation F (swept F env workload settings e.plan w))
                    (λ u. pure F (swept F env workload settings e.plan w ∷ [])))
                (sweep_by-KeepsAt workload.objective q e.plan start)
                (λ w.
                  recorded_Keeps F (swept F env workload settings e.plan w)
                    (swept F env workload settings e.plan w ∷ []))))
          (each_sweep-Keeps es)

    sweep_ranked-Keeps :
        (es : List (CandidateEvaluation F)) → Keeps F (sweep_ranked F env workload settings es)
    sweep_ranked-Keeps es s h =
        let ordered = open_first F env workload settings s.session es in
        then_Keeps F (each_sweep F env workload settings ordered)
          (λ ws. pure F (or_ranked F env workload settings ordered ws)) (each_sweep-Keeps ordered)
          (λ ws t k. k) s h

    rank_Keeps :
        (es : List (CandidateEvaluation F)) → Keeps F (rank_structural F workload settings es)
    unfolding rank_structural
    rank_Keeps es =
        then_Keeps F (need_firsts F (first_results F es)) _ (firsts_Keep F (first_results F es))
          (λ rs s h. h)

    pub run_stage_b-Keeps :
        (es : List (CandidateEvaluation F)) → Keeps F (run_stage_b F env workload settings es)
    unfolding run_stage_b
    run_stage_b-Keeps es =
        then_Keeps F (rank_structural F workload settings es)
          (λ ranked. sweep_ranked F env workload settings (take settings.top_k ranked))
          (rank_Keeps es) (λ ranked. sweep_ranked-Keeps (take settings.top_k ranked))
