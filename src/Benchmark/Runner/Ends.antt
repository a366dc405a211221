-- ===== src/Benchmark/Runner/Ends.antt =====
-- benchmark/runner.py: the closed loop can always end.
use mathlib.Core.List.{Perm}
use open_baseten_inference.Prelude.{
  zero, suc, ℕ, ◌+◌, ◌*◌, ◌≤◌, ◌<◌, ◌≡◌, refl, ap, ◌∙◌, subst, map, some, List, [], ◌∷◌, ◌++◌,
  get_elem?, remove_at, length, length-append, length-remove_at, arith,
}
use open_baseten_inference.Benchmark.Runner.{
  ClosedLoop, LoopEvent, begin, answered, pulled, worker_begun, recorded, loop_step, loop_run,
  closed_loop,
}
use open_baseten_inference.Benchmark.Runner.Drained.{IsSound, loop_run-IsSound, drained_perm}

module _ {R A : Type 0} (answer : R → A) where
  work : ClosedLoop R A → ℕ
  work s = s.created + length s.waiting + 2 * length s.queue

  pulled-work : (q : List R) (s : ClosedLoop R A) → s.queue ≡ q → work (pulled q s) ≤ work s
  unfolding work
  pulled-work [] s e = omega arith
  pulled-work (r ∷ rest) s e =
      let shrunk : length s.queue ≡ suc (length rest) = ap length e in
      omega (arith, length-append s.waiting (r ∷ []), shrunk)

  worker_begun-work :
      (k : ℕ) (s : ClosedLoop R A) → s.created ≡ suc k → work (worker_begun (suc k) s) < work s
  unfolding work
  worker_begun-work k s e =
      let less = pulled-work s.queue (record s { created = k }) refl in omega (arith, less, e)

  recorded-work :
      (r : R) (i : ℕ) (s : ClosedLoop R A)
      → get_elem? s.waiting i ≡ some r
      → work (recorded answer (some r) i s) < work s
  unfolding work
  recorded-work r i s e =
      let s' = record s {
        waiting = remove_at s.waiting i;
        results = s.results ++ answer r ∷ [];
        done = s.done + 1;
      } in
      omega (arith, pulled-work s.queue s' refl, length-remove_at s.waiting i e)

  -- some events end the loop
  abbrev Ends : ClosedLoop R A → Type 0
  Ends s =
      (more : List LoopEvent) × ((loop_run answer more s).created ≡ 0)
      × ((loop_run answer more s).waiting ≡ [])

  after_event : (e : LoopEvent) (s : ClosedLoop R A) → Ends (loop_step answer e s) → Ends s
  after_event e s (more, c, w) = (e ∷ more, c, w)

  ended_by :
      (k : ℕ) (s : ClosedLoop R A)
      → ((t : ClosedLoop R A) → work t < k → Ends t)
      → work s < suc k
      → (n : ℕ) (ws : List R) → s.created ≡ n
      → s.waiting ≡ ws
      → Ends s
  unfolding loop_step
  ended_by k s ih h zero [] c e = ([], c, e)
  ended_by k s ih h zero (r ∷ ws) c e =
      let there : get_elem? s.waiting 0 ≡ some r = ap (λ xs. get_elem? xs 0) e in
      after_event (answered 0) s (
        ih (loop_step answer (answered 0) s)
          (rw there (omega (arith, recorded-work r 0 s there, h))))
  ended_by k s ih h (suc n) ws c e =
      after_event begin s
        (ih (loop_step answer begin s) (rw c (omega (arith, worker_begun-work n s c, h))))

  Ends-within : (k : ℕ) (s : ClosedLoop R A) → work s < k → Ends s
  Ends-within zero s h = absurd (omega (arith, h))
  Ends-within (suc k) s h = ended_by k s (λ t l. Ends-within k t l) h s.created s.waiting refl refl

  loop_run-append :
      (es more : List LoopEvent) (s : ClosedLoop R A)
      → loop_run answer (es ++ more) s ≡ loop_run answer more (loop_run answer es s)
  loop_run-append [] more s = refl
  loop_run-append (e ∷ es) more s = loop_run-append es more (loop_step answer e s)

  -- What some further events bring a closed loop to: no worker has still to begin, none waits, and the
  -- results are the answers of all the requests, each once.
  abbrev pub Completes : List R → ClosedLoop R A → Type 0
  Completes requests s =
      (more : List LoopEvent) × ((loop_run answer more s).created ≡ 0)
      × ((loop_run answer more s).waiting ≡ [])
      × Perm (loop_run answer more s).results (map answer requests)

  -- Whatever the events of a closed loop with a worker or more so far: at most `concurrency` requests are
  -- sent and not yet answered; each request is answered, waited for or queued, once; the results are
  -- counted; while requests are queued there is a worker that has still to begin or waits; and some
  -- further events end the loop, with the answers of all the requests, each once, in some order.
  pub closed_loop-IsSound :
      (concurrency : ℕ) (requests : List R) (es : List LoopEvent)
      → 0 < concurrency
      → let s = loop_run answer es (closed_loop concurrency requests) in
        IsSound answer concurrency requests s × Completes requests s
  closed_loop-IsSound concurrency requests es h =
      let start = closed_loop concurrency requests in
      let s = loop_run answer es start in
      let (more, c, w) = Ends-within (suc (work s)) s (omega arith) in
      let same = loop_run-append es more start in
      let all =
        drained_perm answer concurrency requests (loop_run answer (es ++ more) start)
          (loop_run-IsSound answer concurrency requests (es ++ more) h)
          (ap (λ t. t.created) same ∙ c) (ap (λ t. t.waiting) same ∙ w) in
      (
        loop_run-IsSound answer concurrency requests es h,
        (more, c, w, subst (λ t. Perm t.results (map answer requests)) same all),
      )
