-- ===== src/Examples/Runner.antt =====
-- benchmark/runner.py: two workers and three requests.
use open_baseten_inference.Prelude.{ℕ, ◌+◌, ◌≡◌, refl, List, [], ◌∷◌, arith}
use open_baseten_inference.Benchmark.Runner.{
  LoopEvent, begin, answered, loop_step, loop_run, closed_loop,
}
use open_baseten_inference.Benchmark.Runner.Drained.{IsSound}
use open_baseten_inference.Benchmark.Runner.Ends.{Completes, closed_loop-IsSound}

abbrev tokens : ℕ → ℕ
tokens r = r + 100

abbrev requests : List ℕ
requests = 7 ∷ 8 ∷ 9 ∷ []

-- the second request is answered first, then the third
abbrev events : List LoopEvent
events = begin ∷ begin ∷ answered 1 ∷ answered 1 ∷ answered 0 ∷ []

results_in_order : (loop_run tokens events (closed_loop 2 requests)).results ≡ 108 ∷ 109 ∷ 107 ∷ []
unfolding loop_step
results_in_order = refl

closed_loop-IsSound_example :
    let s = loop_run tokens (begin ∷ answered 0 ∷ []) (closed_loop 2 requests) in
    IsSound tokens 2 requests s × Completes tokens requests s
closed_loop-IsSound_example =
    closed_loop-IsSound tokens 2 requests (begin ∷ answered 0 ∷ []) (omega arith)
