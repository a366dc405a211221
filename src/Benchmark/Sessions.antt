-- ===== src/Benchmark/Sessions.antt =====
-- benchmark/tuner.py: the sessions that are opened and closed, as a relation on the calls.
pub mod Structural
pub mod Sweeps
pub mod Tune
use open_baseten_inference.Prelude.{
  ◌≡◌, refl, sym, subst, Bool, true, false, Option, none, some, List, [], ◌∷◌, Floats, if_intro,
  if◌then◌else◌,
}
use open_baseten_inference.Schemas.Benchmark.{BenchmarkSpec, BenchmarkResult}
use open_baseten_inference.Schemas.Tuning.{CandidatePlan, CandidateEvaluation}
use open_baseten_inference.Benchmark.Tasks.{
  Task, Evaluator, Tuning, Call, open_session, failed_open, run_benchmark, close_session, Result,
  ok, raised, Error, Opened, launched, launch_failed, open_crashed, Measured, measured,
  benchmark_error, benchmark_crashed, pure, raise, and_then, continued, with_finally, over_raised,
  record_evaluation, close_current, close_open, closed, launch, launch_plan, serves, reopen,
  open_plan, benchmark, answered,
}

module _ (F : Floats) where
  -- what a run of calls, the latest first, leaves open: a session is opened where none is, and
  -- benchmarks run in the open session until it is closed
  pub data Session : List (Call F) → Option (CandidatePlan F) → Type 0 where
    no_calls : Session [] none
    opens :
        (p : CandidatePlan F) (cs : List (Call F))
        → Session cs none
        → Session (open_session p ∷ cs) (some p)
    fails :
        (p : CandidatePlan F) (cs : List (Call F))
        → Session cs none
        → Session (failed_open p ∷ cs) none
    runs :
        (p : CandidatePlan F) (spec : BenchmarkSpec) (cs : List (Call F))
        → Session cs (some p)
        → Session (run_benchmark p spec ∷ cs) (some p)
    closes :
        (p : CandidatePlan F) (cs : List (Call F))
        → Session cs (some p)
        → Session (close_session p ∷ cs) none

  -- the tuner's field is the open session
  abbrev pub Holds : Tuning F → Type 0
  Holds s = Session s.calls s.session

  abbrev pub HoldsAt : CandidatePlan F → Tuning F → Type 0
  HoldsAt q s = Holds s × (s.session ≡ some q)

  -- after a task: a condition on its value, or, after an exception, the invariant
  abbrev pub After : {A : Type 0} → (A → Tuning F → Type 0) → Tuning F × Result A → Type 0
  After J (s, ok a) = J a s
  After J (s, raised e) = Holds s

  abbrev pub Triple :
      {A : Type 0} → (Tuning F → Type 0) → Task F A → (A → Tuning F → Type 0) → Type 0
  Triple I m J = (s : Tuning F) → I s → After J (m s)

  -- a task that keeps the invariant, and one that also keeps the session
  abbrev pub Keeps : {A : Type 0} → Task F A → Type 0
  Keeps m = Triple Holds m (λ a s. Holds s)

  abbrev pub KeepsAt : {A : Type 0} → CandidatePlan F → Task F A → Type 0
  KeepsAt q m = Triple (HoldsAt q) m (λ a s. HoldsAt q s)

  pub and_then-Triple :
      {A B : Type 0} (I : Tuning F → Type 0) (J : A → Tuning F → Type 0) (K : B → Tuning F → Type 0)
      (m : Task F A) (f : A → Task F B)
      → Triple I m J
      → ((a : A) → Triple (J a) (f a) K)
      → Triple I (and_then F m f) K
  and_then-Triple I J K m f first then_ s i = joined (m s) (first s i)
    where
      joined : (r : Tuning F × Result _) → After J r → After K (continued F r f)
      joined (t, ok a) h = then_ a t h
      joined (t, raised e) h = h

  pub Holds-After : {A : Type 0} (r : Tuning F × Result A) → After (λ a s. Holds s) r → Holds r.0
  Holds-After (s, ok a) h = h
  Holds-After (s, raised e) h = h

  -- no session is open, and none was left open
  abbrev pub Closed : Tuning F → Type 0
  Closed s = Session s.calls none × (s.session ≡ none)

  module _ (env : Evaluator F) where
    close_open-Closed :
        (s : Tuning F) (o : Option (CandidatePlan F))
        → s.session ≡ o
        → Session s.calls o
        → Closed (close_open F env s o).0
    close_open-Closed s none e h = (h, e)
    close_open-Closed s (some p) e h = answer (env.on_close s.calls p)
      where
        t : Tuning F
        t = record s { session = none; calls = close_session p ∷ s.calls }

        answer : (b : Bool) → Closed (closed F t b).0
        answer true = (closes p s.calls h, refl)
        answer false = (closes p s.calls h, refl)

    pub close_current-Closed : (s : Tuning F) → Holds s → Closed (close_current F env s).0
    unfolding close_current
    close_current-Closed s h = close_open-Closed s s.session refl h

    pub close_current-Triple : Triple Holds (close_current F env) (λ u s. Closed s)
    unfolding close_current
    close_current-Triple s h = within s s.session refl h
      where
        within :
            (s : Tuning F) (o : Option (CandidatePlan F))
            → s.session ≡ o
            → Session s.calls o
            → After (λ u t. Closed t) (close_open F env s o)
        within s none e h = (h, e)
        within s (some p) e h = answer (env.on_close s.calls p)
          where
            t : Tuning F
            t = record s { session = none; calls = close_session p ∷ s.calls }

            answer : (b : Bool) → After (λ u t. Closed t) (closed F t b)
            answer true = (closes p s.calls h, refl)
            answer false = closes p s.calls h

    -- after an open: a session, of the plan that is returned, or none
    abbrev pub Opens : Option (CandidatePlan F) → Tuning F → Type 0
    Opens none s = Holds s
    Opens (some q) s = HoldsAt q s

    launch_plan-Triple : (p : CandidatePlan F) → Triple Closed (launch_plan F env p) Opens
    launch_plan-Triple p s (h, e) = answer (env.on_open s.calls p)
      where
        answer : (o : Opened F) → After Opens (launch F p s o)
        answer launched = (opens p s.calls h, refl)
        answer launch_failed = subst (Session (failed_open p ∷ s.calls)) (sym e) (fails p s.calls h)
        answer open_crashed = subst (Session (failed_open p ∷ s.calls)) (sym e) (fails p s.calls h)

    pub open_plan-Triple : (p : CandidatePlan F) → Triple Holds (open_plan F env p) Opens
    unfolding open_plan
    open_plan-Triple p s h = within s.session refl
      where
        within : (o : Option (CandidatePlan F)) → s.session ≡ o → After Opens (reopen F env p o s)
        within none e = launch_plan-Triple p s (subst (Session s.calls) e h, e)
        within (some q) e =
            if_intro (λ (m : Task F (Option (CandidatePlan F))). After Opens (m s)) (serves F q p)
              {x = pure F (some q)}
              {y = and_then F (close_current F env) (λ u. launch_plan F env p)} (h, e)
              (and_then-Triple Holds (λ u t. Closed t) Opens (close_current F env)
                (λ u. launch_plan F env p) close_current-Triple (λ u. launch_plan-Triple p) s h)

    pub benchmark-KeepsAt :
        (q : CandidatePlan F) (spec : BenchmarkSpec) → KeepsAt q (benchmark F env q spec)
    unfolding benchmark
    benchmark-KeepsAt q spec s (h, e) = answer (env.on_benchmark s.calls q spec)
      where
        ran : Session (run_benchmark q spec ∷ s.calls) s.session
        ran =
            subst (Session (run_benchmark q spec ∷ s.calls)) (sym e)
              (runs q spec s.calls (subst (Session s.calls) e h))

        answer : (m : Measured F) → After (λ a t. HoldsAt q t) (answered F q spec s m)
        answer (measured r) = (ran, e)
        answer benchmark_error = (ran, e)
        answer benchmark_crashed = ran
