-- ===== src/Benchmark/Tasks.antt =====
-- What benchmark/tuner.py runs on: an evaluator that opens sessions (the protocol of
-- benchmark/evaluator.py) and the state of the tuner, with Python's exceptions as results. What the
-- evaluator answers may depend on all the calls that it has received.
use open_baseten_inference.Prelude.{
  Bool, true, false, ◌&&◌, Option, none, some, List, [], ◌∷◌, ◌++◌, if◌then◌else◌, Floats,
}
use open_baseten_inference.Schemas.Benchmark.{BenchmarkSpec, BenchmarkResult}
use open_baseten_inference.Schemas.Tuning.{
  CandidatePlan, CandidateEvaluation, same_key, option_eq, float_eq,
}

-- the exceptions that leave the tuner: no plan is viable, a session that could not be cleaned up, any
-- other one
pub data Error : Type 0 where
  no_viable_plan cleanup_failed crashed : Error

pub data Result (A : Type 0) : Type 0 where
  ok : A → Result A
  raised : Error → Result A

module _ (F : Floats) where
  -- the calls that the evaluator and its sessions receive; an open is told from one that fails
  pub data Call : Type 0 where
    open_session failed_open : CandidatePlan F → Call
    run_benchmark : CandidatePlan F → BenchmarkSpec → Call
    close_session : CandidatePlan F → Call

  -- `CandidateLaunchFailed` is caught, and so is `BenchmarkError`
  pub data Opened : Type 0 where
    launched launch_failed open_crashed : Opened

  pub data Measured : Type 0 where
    measured : BenchmarkResult F → Measured
    benchmark_error benchmark_crashed : Measured

  -- the answers, after the calls so far (the latest first)
  pub record Evaluator : Type 0 where
    pub on_open : List Call → CandidatePlan F → Opened
    pub on_benchmark : List Call → CandidatePlan F → BenchmarkSpec → Measured
    pub on_close : List Call → CandidatePlan F → Bool

  -- `_session` with its plan, `evaluations`, and the calls made, the latest first
  pub record Tuning : Type 0 where
    pub session : Option (CandidatePlan F)
    pub evaluations : List (CandidateEvaluation F)
    pub calls : List Call

  abbrev pub Task : Type 0 → Type 0
  Task A = Tuning → Tuning × Result A

  abbrev pub pure : {A : Type 0} → A → Task A
  pure a s = (s, ok a)

  abbrev pub raise : {A : Type 0} → Error → Task A
  raise e s = (s, raised e)

  abbrev pub continued :
      {A : Type 0} {B : Type 0} → Tuning × Result A → (A → Task B) → Tuning × Result B
  continued (s, ok a) f = f a s
  continued (s, raised e) f = (s, raised e)

  abbrev pub and_then : {A : Type 0} {B : Type 0} → Task A → (A → Task B) → Task B
  and_then m f s = continued (m s) f

  -- `finally`: an exception of the last part is the one that is raised
  abbrev pub over_raised : {A : Type 0} → Result A → Tuning × Result Unit → Tuning × Result A
  over_raised r (s, ok u) = (s, r)
  over_raised r (s, raised e) = (s, raised e)

  abbrev pub with_finally : {A : Type 0} → Task A → Task Unit → Task A
  with_finally m last s = over_raised (m s).1 (last (m s).0)

  -- `_record`, and the callback, which only stores the evaluation
  abbrev pub record_evaluation : CandidateEvaluation F → Task Unit
  record_evaluation e s = (record s { evaluations = s.evaluations ++ e ∷ [] }, ok tt)

  abbrev pub closed : Tuning → Bool → Tuning × Result Unit
  closed s true = (s, ok tt)
  closed s false = (s, raised cleanup_failed)

  -- `_close_session`: the session is forgotten before it is closed
  abbrev pub close_open : Evaluator → Tuning → Option (CandidatePlan F) → Tuning × Result Unit
  close_open env s none = (s, ok tt)
  close_open env s (some p) =
      closed (record s { session = none; calls = close_session p ∷ s.calls })
        (env.on_close s.calls p)

  unfoldable pub close_current : Evaluator → Task Unit
  close_current env s = close_open env s s.session

  abbrev pub launch : CandidatePlan F → Tuning → Opened → Tuning × Result (Option (CandidatePlan F))
  launch p s launched =
      (record s { session = some p; calls = open_session p ∷ s.calls }, ok (some p))
  launch p s launch_failed = (record s { calls = failed_open p ∷ s.calls }, ok none)
  launch p s open_crashed = (record s { calls = failed_open p ∷ s.calls }, raised crashed)

  abbrev pub launch_plan : Evaluator → CandidatePlan F → Task (Option (CandidatePlan F))
  launch_plan env p s = launch p s (env.on_open s.calls p)

  -- whether the open session serves a plan
  abbrev pub serves : CandidatePlan F → CandidatePlan F → Bool
  serves q p = same_key F q p && option_eq (float_eq F) q.memory_fraction p.memory_fraction

  abbrev pub reopen :
      Evaluator → CandidatePlan F → Option (CandidatePlan F) → Task (Option (CandidatePlan F))
  reopen env p none = launch_plan env p
  reopen env p (some q) =
      if serves q p then pure (some q) else and_then (close_current env) (λ u. launch_plan env p)

  -- `_open`: the plan of the session, or nothing where the launch failed
  unfoldable pub open_plan : Evaluator → CandidatePlan F → Task (Option (CandidatePlan F))
  unfolding same_key close_current
  open_plan env p s = reopen env p s.session s

  abbrev pub answered :
      CandidatePlan F
      → BenchmarkSpec
      → Tuning
      → Measured
      → Tuning × Result (Option (BenchmarkResult F))
  answered p spec s (measured r) =
      (record s { calls = run_benchmark p spec ∷ s.calls }, ok (some r))
  answered p spec s benchmark_error = (record s { calls = run_benchmark p spec ∷ s.calls }, ok none)
  answered p spec s benchmark_crashed =
      (record s { calls = run_benchmark p spec ∷ s.calls }, raised crashed)

  -- `session.benchmark(spec)`: nothing where it raises a `BenchmarkError`
  unfoldable pub benchmark :
      Evaluator → CandidatePlan F → BenchmarkSpec → Task (Option (BenchmarkResult F))
  benchmark env p spec s = answered p spec s (env.on_benchmark s.calls p spec)
