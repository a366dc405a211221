-- ===== src/Benchmark/Runner.antt =====
-- src/servepilot/benchmark/runner.py: the closed loop of a benchmark, workers that pull requests from
-- one queue. An event is what a worker does between two awaits; what a request is answered is a
-- function, which never raises (`BenchmarkClient.run_request` records failures).
pub mod Drained
pub mod Ends
use open_baseten_inference.Prelude.{
  zero, suc, ℕ, ◌+◌, min, Option, none, some, List, [], ◌∷◌, ◌++◌, get_elem?, remove_at, length,
}

pub record ClosedLoop (R : Type 0) (A : Type 0) : Type 0 where
  pub queue : List R
  -- the worker tasks that have not run yet
  pub created : ℕ
  -- the requests that workers wait for
  pub waiting : List R
  pub results : List A
  pub done : ℕ

pub data LoopEvent : Type 0 where
  begin : LoopEvent
  answered : ℕ → LoopEvent

module _ {R A : Type 0} where
  -- `queue.get_nowait()` and the request, or the end of the worker
  abbrev pub pulled : List R → ClosedLoop R A → ClosedLoop R A
  pulled [] s = s
  pulled (r ∷ rest) s = record s { queue = rest; waiting = s.waiting ++ r ∷ [] }

  abbrev pub next_request : ClosedLoop R A → ClosedLoop R A
  next_request s = pulled s.queue s

  abbrev pub worker_begun : ℕ → ClosedLoop R A → ClosedLoop R A
  worker_begun zero s = s
  worker_begun (suc n) s = next_request (record s { created = n })

  -- the rest of a round, for the request at a place
  abbrev pub recorded : (R → A) → Option R → ℕ → ClosedLoop R A → ClosedLoop R A
  recorded answer none i s = s
  recorded answer (some r) i s = next_request (record s {
    waiting = remove_at s.waiting i;
    results = s.results ++ answer r ∷ [];
    done = s.done + 1;
  })

  unfoldable pub loop_step : (R → A) → LoopEvent → ClosedLoop R A → ClosedLoop R A
  loop_step answer begin s = worker_begun s.created s
  loop_step answer (answered i) s = recorded answer (get_elem? s.waiting i) i s

  abbrev pub loop_run : (R → A) → List LoopEvent → ClosedLoop R A → ClosedLoop R A
  loop_run answer [] s = s
  loop_run answer (e ∷ es) s = loop_run answer es (loop_step answer e s)

  abbrev pub closed_loop : ℕ → List R → ClosedLoop R A
  closed_loop concurrency requests = record {
    queue = requests;
    created = min concurrency (length requests);
    waiting = [];
    results = [];
    done = 0;
  }
