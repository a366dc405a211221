-- ===== src/Benchmark/Sessions/Structural.antt =====
-- benchmark/tuner.py: stage A keeps its sessions in order.
use open_baseten_inference.Prelude.{
  sym, subst, Bool, Option, none, some, List, [], ◌∷◌, ◌++◌, Floats, if_intro, if◌then◌else◌,
}
use open_baseten_inference.Schemas.Benchmark.{BenchmarkResult, stage_a}
use open_baseten_inference.Schemas.Tuning.{
  CandidatePlan, CandidateEvaluation, WorkloadProfile, TuningSettings, make_spec, structural,
  failed, benchmarked,
}
use open_baseten_inference.Benchmark.Tasks.{
  Task, Evaluator, Tuning, Result, ok, raised, pure, and_then, record_evaluation, close_current,
  open_plan, benchmark,
}
use open_baseten_inference.Benchmark.Structural.{
  evaluation, after_benchmark, in_session, one_candidate, prior, find_completed, need_firsts,
  first_results, each_candidate, run_stage_a, stage_a_concurrency, is_empty_list,
}
use open_baseten_inference.Benchmark.Sessions.{
  Session, Holds, HoldsAt, After, Triple, Keeps, KeepsAt, Closed, Opens, and_then-Triple,
  close_current-Triple, open_plan-Triple, benchmark-KeepsAt,
}

module _ (F : Floats) where
  After-map :
      {A : Type 0} (J K : A → Tuning F → Type 0) (r : Tuning F × Result A)
      → ((a : A) (s : Tuning F) → J a s → K a s)
      → After F J r
      → After F K r
  After-map J K (s, ok a) f h = f a s h
  After-map J K (s, raised e) f h = h

  pub then_Keeps :
      {A B : Type 0} (m : Task F A) (f : A → Task F B)
      → Keeps F m
      → ((a : A) → Keeps F (f a))
      → Keeps F (and_then F m f)
  then_Keeps m f k l = and_then-Triple F (Holds F) (λ a s. Holds F s) (λ b s. Holds F s) m f k l

  pub then_KeepsAt :
      {A B : Type 0} (q : CandidatePlan F) (m : Task F A) (f : A → Task F B)
      → KeepsAt F q m
      → ((a : A) → KeepsAt F q (f a))
      → KeepsAt F q (and_then F m f)
  then_KeepsAt q m f k l =
      and_then-Triple F (HoldsAt F q) (λ a s. HoldsAt F q s) (λ b s. HoldsAt F q s) m f k l

  -- a task in a session, and what comes after it
  pub session_then :
      {A B : Type 0} (q : CandidatePlan F) (m : Task F A) (f : A → Task F B)
      → KeepsAt F q m
      → ((a : A) → Keeps F (f a))
      → Triple F (HoldsAt F q) (and_then F m f) (λ b s. Holds F s)
  session_then q m f k l =
      and_then-Triple F (HoldsAt F q) (λ a s. HoldsAt F q s) (λ b s. Holds F s) m f k
        (λ a s h. l a s h.0)

  pub open_then :
      {B : Type 0} (env : Evaluator F) (p : CandidatePlan F)
      (f : Option (CandidatePlan F) → Task F B)
      → Keeps F (f none)
      → ((q : CandidatePlan F) → Triple F (HoldsAt F q) (f (some q)) (λ b s. Holds F s))
      → Keeps F (and_then F (open_plan F env p) f)
  open_then env p f none_case in_one =
      and_then-Triple F (Holds F) (Opens F env) (λ b s. Holds F s) (open_plan F env p) f
        (open_plan-Triple F env p) either
    where
      either : (o : Option (CandidatePlan F)) → Triple F (Opens F env o) (f o) (λ b s. Holds F s)
      either none = none_case
      either (some q) = in_one q

  pub close_Keeps : (env : Evaluator F) → Keeps F (close_current F env)
  close_Keeps env s h =
      After-map (λ u t. Closed F t) (λ u t. Holds F t) (close_current F env s)
        (λ u t c. subst (Session F t.calls) (sym c.1) c.0) (close_current-Triple F env s h)

  pub pure-Keeps : {A : Type 0} (a : A) → Keeps F (pure F a)
  pure-Keeps a s h = h

  pub record_Keeps : (e : CandidateEvaluation F) → Keeps F (record_evaluation F e)
  record_Keeps e s h = h

  -- an evaluation is recorded, and a value returned
  pub recorded_Keeps :
      {A : Type 0} (e : CandidateEvaluation F) (a : A)
      → Keeps F (and_then F (record_evaluation F e) (λ u. pure F a))
  recorded_Keeps e a s h = h

  -- the lists of a loop, put together
  pub appended_Keeps :
      {A : Type 0} (m n : Task F (List A))
      → Keeps F m
      → Keeps F n
      → Keeps F (and_then F m (λ xs. and_then F n (λ ys. pure F (xs ++ ys))))
  appended_Keeps m n k l =
      then_Keeps m (λ xs. and_then F n (λ ys. pure F (xs ++ ys))) k
        (λ xs. then_Keeps n (λ ys. pure F (xs ++ ys)) l (λ ys. pure-Keeps (xs ++ ys)))

  pub firsts_Keep : (o : Option (List (BenchmarkResult F))) → Keeps F (need_firsts F o)
  firsts_Keep none s h = h
  firsts_Keep (some rs) s h = h

  module _ (env : Evaluator F) (workload : WorkloadProfile F) (settings : TuningSettings F)
      (completed : List (CandidateEvaluation F)) where
    after_benchmark-Keeps :
        (p : CandidatePlan F) (last : Bool) (m : Option (BenchmarkResult F))
        → Keeps F (after_benchmark F env workload settings completed p last m)
    after_benchmark-Keeps p last none =
        let e = evaluation F p structural failed [] in
        then_Keeps (record_evaluation F e) (λ u. and_then F (close_current F env) (λ v. pure F []))
          (record_Keeps e)
          (λ u. then_Keeps (close_current F env) (λ v. pure F []) (close_Keeps env) (λ v s h. h))
    after_benchmark-Keeps p last (some r) =
        let e = evaluation F p structural benchmarked (r ∷ []) in
        let m = if last then pure F tt else close_current F env in
        then_Keeps (record_evaluation F e) (λ u. and_then F m (λ v. pure F (e ∷ [])))
          (record_Keeps e)
          (λ u.
            then_Keeps m (λ v. pure F (e ∷ []))
              (if_intro (λ (n : Task F Unit). Keeps F n) last {x = pure F tt}
                {y = close_current F env} (pure-Keeps tt) (close_Keeps env))
              (λ v. pure-Keeps (e ∷ [])))

    one_candidate-Keeps :
        (p : CandidatePlan F) (last : Bool) (e : Option (CandidateEvaluation F))
        → Keeps F (one_candidate F env workload settings completed p last e)
    one_candidate-Keeps p last (some e) = recorded_Keeps e (e ∷ [])
    one_candidate-Keeps p last none =
        open_then env p (in_session F env workload settings completed p last) (λ s h. h)
          (λ q.
            let spec =
              make_spec (stage_a_concurrency F env workload settings completed p)
                settings.stage_a_requests stage_a in
            session_then q (benchmark F env q spec)
              (after_benchmark F env workload settings completed p last)
              (benchmark-KeepsAt F env q spec) (after_benchmark-Keeps p last))

    each_candidate-Keeps :
        (ps : List (CandidatePlan F))
        → Keeps F (each_candidate F env workload settings completed ps)
    each_candidate-Keeps [] = λ s h. h
    each_candidate-Keeps (p ∷ ps) =
        let e =
          prior F env workload settings completed p
            (find_completed F env workload settings completed p completed) in
        appended_Keeps (one_candidate F env workload settings completed p (is_empty_list ps) e)
          (each_candidate F env workload settings completed ps)
          (one_candidate-Keeps p (is_empty_list ps) e) (each_candidate-Keeps ps)

    pub run_stage_a-Keeps :
        (ps : List (CandidatePlan F)) → Keeps F (run_stage_a F env workload settings completed ps)
    unfolding run_stage_a
    run_stage_a-Keeps ps =
        then_Keeps (each_candidate F env workload settings completed ps)
          (λ es. and_then F (need_firsts F (first_results F es)) (λ rs. pure F es))
          (each_candidate-Keeps ps)
          (λ es.
            then_Keeps (need_firsts F (first_results F es)) (λ rs. pure F es)
              (firsts_Keep (first_results F es)) (λ rs. pure-Keeps es))
