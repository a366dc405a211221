-- ===== src/Benchmark/Sessions/Tune.antt =====
-- benchmark/tuner.py: stages C and D and `tune` keep their sessions in order.
use open_baseten_inference.Prelude.{
  ◌≡◌, sym, subst, ℕ, ◌*◌, not, ◌==◌, Option, none, some, List, [], ◌∷◌, map, Floats, if_intro,
  if◌then◌else◌, take,
}
use open_baseten_inference.Schemas.Benchmark.{
  BenchmarkResult, Objective, throughput, latency, balanced, Label, memory,
}
use open_baseten_inference.Schemas.Plan.{MemoryEstimate}
use open_baseten_inference.Schemas.Tuning.{
  CandidatePlan, CandidateEvaluation, WorkloadProfile, TuningSettings, make_spec,
}
use open_baseten_inference.Benchmark.Tasks.{
  Task, Evaluator, Tuning, Result, ok, raised, pure, raise, and_then, continued, with_finally,
  over_raised, record_evaluation, close_current, open_plan, benchmark, crashed,
}
use open_baseten_inference.Planner.Scoring.{ScoredResult, Selected, select_best}
use open_baseten_inference.Benchmark.Points.{or_default}
use open_baseten_inference.Benchmark.Structural.{run_stage_a}
use open_baseten_inference.Benchmark.Sweeps.{Sweep, run_point, run_stage_b}
use open_baseten_inference.Benchmark.Tuner.{
  Operating, find_winner, selected, pick_among, pick_winner, operating, zip_scores, scores,
  new_fraction, try_fraction, raised_fraction, tuned, beyond, memory_points, is_gain, adopt,
  memory_evaluation, in_memory, choose_among, with_fraction, run_stage_c, confirmed, in_final,
  at_point, run_stage_d, outcome, need_some, stages, tune_some, tune,
}
use open_baseten_inference.Benchmark.Sessions.{
  Session, Holds, Keeps, KeepsAt, Closed, Holds-After, close_current-Closed, benchmark-KeepsAt,
}
use open_baseten_inference.Benchmark.Sessions.Structural.{
  then_Keeps, then_KeepsAt, session_then, open_then, run_stage_a-Keeps, close_Keeps,
}
use open_baseten_inference.Benchmark.Sessions.Sweeps.{run_point-KeepsAt, run_stage_b-Keeps}

module _ (F : Floats) where
  open F use {Float}

  find_winner-Keeps :
      (w : ScoredResult F) (pairs : List (Operating F × ScoredResult F))
      → Keeps F (find_winner F w pairs)
  find_winner-Keeps w [] s h = h
  find_winner-Keeps w ((o, t) ∷ pairs) s h =
      if_intro (λ (m : Task F (Operating F)). Keeps F m) (t.ref == w.ref) {x = pure F o}
        {y = find_winner F w pairs} (λ s h. h) (find_winner-Keeps w pairs) s h

  selected-Keeps :
      (o : Option (Selected F)) (pairs : List (Operating F × ScoredResult F))
      → Keeps F (selected F o pairs)
  selected-Keeps none pairs s h = h
  selected-Keeps (some selection) pairs s h = find_winner-Keeps selection.winner pairs s h

  module _ (env : Evaluator F) (workload : WorkloadProfile F) (settings : TuningSettings F) where
    pick_among-Keeps : (os : List (Operating F)) → Keeps F (pick_among F env workload settings os)
    pick_among-Keeps [] s h = h
    pick_among-Keeps (o ∷ os) s h =
        let scored = scores F env workload settings (map (λ (x : Operating F). x.point) (o ∷ os)) in
        selected-Keeps (select_best F scored) (zip_scores F (o ∷ os) scored) s h

    pick_winner-Keeps :
        (ws : List (CandidateEvaluation F)) → Keeps F (pick_winner F env workload settings ws)
    unfolding pick_winner
    pick_winner-Keeps ws s h =
        pick_among-Keeps (operating F env workload settings s.evaluations ws) s h

    tried_Keeps :
        (old : Float) (est : MemoryEstimate F)
        → Keeps F (new_fraction F env workload settings throughput (some old) (some est))
    tried_Keeps old est =
        if_intro (λ (m : Task F (Option Float)). Keeps F m) (not settings.memory_tuning)
          {x = pure F none}
          {y = if est.device_total_bytes == 0
            then raise F crashed
            else pure F (
                try_fraction F env workload settings old
                  (raised_fraction F env workload settings est old))}
          (λ s h. h)
          (if_intro (λ (m : Task F (Option Float)). Keeps F m) (est.device_total_bytes == 0)
            {x = raise F crashed}
            {y = pure F (
              try_fraction F env workload settings old
                (raised_fraction F env workload settings est old))}
            (λ s h. h) (λ s h. h))

    new_fraction-Keeps :
        (objective : Objective) (old : Option Float) (est : Option (MemoryEstimate F))
        → Keeps F (new_fraction F env workload settings objective old est)
    new_fraction-Keeps latency old est = λ s h. h
    new_fraction-Keeps throughput none est = λ s h. h
    new_fraction-Keeps throughput (some old) none = λ s h. h
    new_fraction-Keeps balanced none est = λ s h. h
    new_fraction-Keeps balanced (some old) none = λ s h. h
    new_fraction-Keeps throughput (some old) (some est) = tried_Keeps old est
    new_fraction-Keeps balanced (some old) (some est) = tried_Keeps old est

    memory_points-KeepsAt :
        (q : CandidatePlan F) (limit : Option ℕ) (cs : List ℕ) (w : Sweep F)
        → KeepsAt F q (memory_points F env workload settings q limit cs w)
    memory_points-KeepsAt q limit [] w = λ s h. h
    memory_points-KeepsAt q limit (c ∷ cs) w =
        if_intro (λ (m : Task F (Sweep F)). KeepsAt F q m) (beyond F env workload settings limit c)
          {x = pure F w}
          {y = and_then F (run_point F env workload settings q c memory w)
            (λ v. memory_points F env workload settings q limit cs v.0)}
          (λ s h. h)
          (then_KeepsAt F q (run_point F env workload settings q c memory w)
            (λ v. memory_points F env workload settings q limit cs v.0)
            (run_point-KeepsAt F env workload settings q c memory w)
            (λ v. memory_points-KeepsAt q limit cs v.0))

    adopt-Keeps :
        (best : Operating F) (e : CandidateEvaluation F) (r : Option (BenchmarkResult F))
        → Keeps F (adopt F env workload settings best e r)
    adopt-Keeps best e none = λ s h. h
    adopt-Keeps best e (some r) =
        if_intro (λ (m : Task F (Operating F)). Keeps F m)
          (is_gain F env workload settings (scores F env workload settings (best.point ∷ r ∷ [])))
          {x = pure F (record { evaluated = e; point = r })}
          {y = and_then F (close_current F env) (λ u. pure F best)} (λ s h. h)
          (then_Keeps F (close_current F env) (λ u. pure F best) (close_Keeps F env) (λ u s h. h))

    with_fraction-Keeps :
        (best : Operating F) (f : Option Float)
        → Keeps F (with_fraction F env workload settings best f)
    with_fraction-Keeps best none = λ s h. h
    with_fraction-Keeps best (some f) =
        let p = tuned F env workload settings (best.evaluated).plan f in
        let c = ((best.point).spec).concurrency in
        let limit = ((best.evaluated).plan).max_concurrency in
        let start : Sweep F = record { history = []; results = [] } in
        let points = c ∷ c * settings.sweep_growth ∷ [] in
        then_Keeps F (close_current F env)
          (λ u. and_then F (open_plan F env p) (in_memory F env workload settings best p))
          (close_Keeps F env)
          (λ u.
            open_then F env p (in_memory F env workload settings best p) (λ s h. h)
              (λ q.
                session_then F q (memory_points F env workload settings q limit points start)
                  (λ w.
                    and_then F (record_evaluation F (memory_evaluation F env workload settings p w))
                      (λ v.
                        adopt F env workload settings best
                          (memory_evaluation F env workload settings p w)
                          (choose_among F env workload settings w.history)))
                  (memory_points-KeepsAt q limit points start)
                  (λ w.
                    then_Keeps F
                      (record_evaluation F (memory_evaluation F env workload settings p w))
                      (λ v.
                        adopt F env workload settings best
                          (memory_evaluation F env workload settings p w)
                          (choose_among F env workload settings w.history))
                      (λ s h. h)
                      (λ v.
                        adopt-Keeps best (memory_evaluation F env workload settings p w)
                          (choose_among F env workload settings w.history)))))

    run_stage_c-Keeps : (best : Operating F) → Keeps F (run_stage_c F env workload settings best)
    unfolding run_stage_c
    run_stage_c-Keeps best =
        let p = (best.evaluated).plan in
        then_Keeps F
          (new_fraction F env workload settings workload.objective p.memory_fraction
            p.estimated_memory)
          (with_fraction F env workload settings best)
          (new_fraction-Keeps workload.objective p.memory_fraction p.estimated_memory)
          (with_fraction-Keeps best)

    confirmed-Keeps :
        (best : Operating F) (p : CandidatePlan F) (r : Option (BenchmarkResult F))
        → Keeps F (confirmed F env workload settings best p r)
    confirmed-Keeps best p none = λ s h. h
    confirmed-Keeps best p (some r) = λ s h. h

    run_stage_d-Keeps : (best : Operating F) → Keeps F (run_stage_d F env workload settings best)
    unfolding run_stage_d
    run_stage_d-Keeps best =
        let p = at_point F env workload settings best in
        let spec =
          make_spec (or_default p.max_concurrency 1)
            (settings.sweep_requests * settings.final_multiplier) Label.final in
        open_then F env p (in_final F env workload settings best p) (λ s h. h)
          (λ q.
            session_then F q (benchmark F env q spec) (confirmed F env workload settings best p)
              (benchmark-KeepsAt F env q spec) (confirmed-Keeps best p))

    need_some-Keeps :
        (es : List (CandidateEvaluation F)) → Keeps F (need_some F env workload settings es)
    need_some-Keeps [] = λ s h. h
    need_some-Keeps (e ∷ es) = λ s h. h

    module _ (completed : List (CandidateEvaluation F)) where
      stages-Keeps :
          (ps : List (CandidatePlan F)) → Keeps F (stages F env workload settings completed ps)
      unfolding stages
      stages-Keeps ps =
          let b = run_stage_b F env workload settings in
          let pick = pick_winner F env workload settings in
          let c = run_stage_c F env workload settings in
          let d = run_stage_d F env workload settings in
          then_Keeps F (run_stage_a F env workload settings completed ps)
            (λ es.
              and_then F (need_some F env workload settings es)
                (λ fs. and_then F (b fs) (λ ws. and_then F (pick ws) (λ o. and_then F (c o) d))))
            (run_stage_a-Keeps F env workload settings completed ps)
            (λ es.
              then_Keeps F (need_some F env workload settings es)
                (λ fs. and_then F (b fs) (λ ws. and_then F (pick ws) (λ o. and_then F (c o) d)))
                (need_some-Keeps es)
                (λ fs.
                  then_Keeps F (b fs) (λ ws. and_then F (pick ws) (λ o. and_then F (c o) d))
                    (run_stage_b-Keeps F env workload settings fs)
                    (λ ws.
                      then_Keeps F (pick ws) (λ o. and_then F (c o) d) (pick_winner-Keeps ws)
                        (λ o. then_Keeps F (c o) d (run_stage_c-Keeps o) run_stage_d-Keeps))))

      finally_Closed :
          {A : Type 0} (r : Result A) (x : Tuning F × Result Unit)
          → Closed F x.0
          → Closed F (over_raised F r x).0
      finally_Closed r (s, ok u) h = h
      finally_Closed r (s, raised e) h = h

      outcome-Closed :
          (x : Tuning F × Result (Operating F))
          → Closed F x.0
          → Closed F (continued F x (outcome F env workload settings)).0
      outcome-Closed (s, ok o) h = h
      outcome-Closed (s, raised e) h = h

      tune_some-Closed :
          (ps : List (CandidatePlan F)) (s : Tuning F)
          → Closed F s
          → Closed F (tune_some F env workload settings completed ps s).0
      tune_some-Closed [] s h = h
      tune_some-Closed (p ∷ ps) s h =
          let m = stages F env workload settings completed (p ∷ ps) in
          let k : Holds F s = subst (Session F s.calls) (sym h.1) h.0 in
          outcome-Closed (with_finally F m (close_current F env) s) (
            finally_Closed (m s).1 (close_current F env (m s).0) (
              close_current-Closed F env (m s).0 (Holds-After F (m s) (stages-Keeps (p ∷ ps) s k))))

      -- On every path, exceptions included, `tune` opens a session only where none is open, runs
      -- benchmarks only in the open session, closes each session that it opened, once, and ends with
      -- none open, if it starts so.
      pub tune-Session :
          (viable : List (CandidatePlan F)) (s : Tuning F)
          → Session F s.calls none
          → s.session ≡ none
          → Session F ((tune F env workload settings completed viable s).0).calls none
            × (((tune F env workload settings completed viable s).0).session ≡ none)
      unfolding tune
      tune-Session viable s h e =
          tune_some-Closed (take settings.max_structural_candidates viable) s (h, e)
