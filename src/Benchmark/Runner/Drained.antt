-- ===== src/Benchmark/Runner/Drained.antt =====
-- benchmark/runner.py: the closed loop sends each request once, and not too many at a time.
use mathlib.Core.List.{Perm, append_assoc, append-nil}
use mathlib.Core.List.Perm
use open_baseten_inference.Prelude.{
  zero, suc, ℕ, ◌+◌, ◌≤◌, ◌<◌, min, ◌≡◌, refl, sym, ap, ◌∙◌, ◌⊎◌, inl, inr, Option, none, some,
  List, [], ◌∷◌, ◌++◌, map, get_elem?, remove_at, length, length-append, length-remove_at, subst,
  arith,
}
use open_baseten_inference.Benchmark.Runner.{
  ClosedLoop, LoopEvent, begin, answered, pulled, worker_begun, recorded, loop_step, loop_run,
  closed_loop,
}

remove_at-perm {ℓ} :
    {A : Type ℓ} (xs : List A) (i : ℕ) (x : A)
    → get_elem? xs i ≡ some x
    → Perm (x ∷ remove_at xs i) xs
remove_at-perm [] i x h = absurd (cc)
remove_at-perm (y ∷ ys) zero x h = Perm.cons' (ground (arith, h)) Perm.rfl
remove_at-perm (y ∷ ys) (suc i) x h =
    Perm.trans (Perm.swap y x (remove_at ys i)) (Perm.cons y (remove_at-perm ys i x h))

module _ {R A : Type 0} (answer : R → A) where
  -- the answers given, and those that are to come
  abbrev answers : ClosedLoop R A → List A
  answers s = s.results ++ map answer (s.waiting ++ s.queue)

  -- of a loop over `total` requests with `n` workers
  record IsCounted (total n : ℕ) (s : ClosedLoop R A) : Type 0 where
    all_there : s.done + length s.waiting + length s.queue ≡ total
    counted : s.done ≡ length s.results
    bounded : s.created + length s.waiting ≤ n
    busy : 0 < length s.queue → s.created + length s.waiting ≡ n

  -- a worker that is about to pull: one fewer than `n` are counted
  record IsPulling (total n : ℕ) (s : ClosedLoop R A) : Type 0 where
    all_there : s.done + length s.waiting + length s.queue ≡ total
    counted : s.done ≡ length s.results
    bounded : s.created + length s.waiting + 1 ≤ n
    busy : 0 < length s.queue → s.created + length s.waiting + 1 ≡ n

  pulled-IsCounted :
      (total n : ℕ) (q : List R) (s : ClosedLoop R A)
      → s.queue ≡ q
      → IsPulling total n s
      → IsCounted total n (pulled q s)
  pulled-IsCounted total n [] s e p = record {
    all_there = p.all_there;
    counted = p.counted;
    bounded = omega (arith, p.bounded);
    busy = λ h. absurd (omega (arith, ap length e));
  }
  pulled-IsCounted total n (r ∷ rest) s e p =
      let grown = length-append s.waiting (r ∷ []) in
      let shrunk : length s.queue ≡ suc (length rest) = ap length e in
      record {
        all_there = omega (arith, p.all_there, grown, shrunk);
        counted = p.counted;
        bounded = omega (arith, p.bounded, grown);
        busy = λ h. omega (arith, p.busy (omega (arith, shrunk)), grown);
      }

  loop_step-IsCounted :
      (total n : ℕ) (e : LoopEvent) (s : ClosedLoop R A)
      → IsCounted total n s
      → IsCounted total n (loop_step answer e s)
  unfolding loop_step
  loop_step-IsCounted total n begin s c = of_created s.created refl
    where
      of_created : (k : ℕ) → s.created ≡ k → IsCounted total n (worker_begun k s)
      of_created zero e = c
      of_created (suc k) e =
          pulled-IsCounted total n s.queue (record s { created = k }) refl
            (record {
              all_there = c.all_there;
              counted = c.counted;
              bounded = omega (arith, c.bounded, e);
              busy = λ h. omega (arith, c.busy h, e);
            })
  loop_step-IsCounted total n (answered i) s c = of_request (get_elem? s.waiting i) refl
    where
      of_request :
          (o : Option R) → get_elem? s.waiting i ≡ o → IsCounted total n (recorded answer o i s)
      of_request none e = c
      of_request (some r) e =
          let less = length-remove_at s.waiting i e in
          let more = length-append s.results (answer r ∷ []) in
          pulled-IsCounted total n s.queue _ refl (record {
            all_there = omega (arith, c.all_there, less);
            counted = omega (arith, c.counted, more);
            bounded = omega (arith, c.bounded, less);
            busy = λ h. omega (arith, c.busy h, less);
          })

  pulled-answers :
      (q : List R) (s : ClosedLoop R A) → s.queue ≡ q → answers (pulled q s) ≡ answers s
  pulled-answers [] s e = refl
  pulled-answers (r ∷ rest) s e =
      ap (λ xs. s.results ++ map answer xs)
        (append_assoc s.waiting (r ∷ []) rest ∙ ap (λ xs. s.waiting ++ xs) (sym e))

  loop_step-perm :
      (e : LoopEvent) (s : ClosedLoop R A) → Perm (answers (loop_step answer e s)) (answers s)
  unfolding loop_step
  loop_step-perm begin s = of_created s.created
    where
      of_created : (k : ℕ) → Perm (answers (worker_begun k s)) (answers s)
      of_created zero = Perm.rfl
      of_created (suc k) = rw (pulled-answers s.queue (record s { created = k }) refl) Perm.rfl
  loop_step-perm (answered i) s = of_request (get_elem? s.waiting i) refl
    where
      of_request :
          (o : Option R)
          → get_elem? s.waiting i ≡ o
          → Perm (answers (recorded answer o i s)) (answers s)
      of_request none e = Perm.rfl
      of_request (some r) e =
          let left = remove_at s.waiting i in
          let s' = record s {
            waiting = left;
            results = s.results ++ answer r ∷ [];
            done = s.done + 1;
          } in
          rw (pulled-answers s.queue s' refl) (
            rw (append_assoc s.results (answer r ∷ []) (map answer (left ++ s.queue))) (
              Perm.append_left s.results
                (Perm.map answer (Perm.append_right s.queue (remove_at-perm s.waiting i r e)))))

  loop_run-IsCounted :
      (total n : ℕ) (es : List LoopEvent) (s : ClosedLoop R A)
      → IsCounted total n s
      → IsCounted total n (loop_run answer es s)
  loop_run-IsCounted total n [] s c = c
  loop_run-IsCounted total n (e ∷ es) s c =
      loop_run-IsCounted total n es (loop_step answer e s) (loop_step-IsCounted total n e s c)

  loop_run-perm :
      (es : List LoopEvent) (s : ClosedLoop R A) → Perm (answers (loop_run answer es s)) (answers s)
  loop_run-perm [] s = Perm.rfl
  loop_run-perm (e ∷ es) s =
      Perm.trans (loop_run-perm es (loop_step answer e s)) (loop_step-perm e s)

  started-IsCounted :
      (concurrency : ℕ) (requests : List R)
      → IsCounted
          (length requests)
          (min concurrency (length requests))
          (closed_loop concurrency requests)
  started-IsCounted concurrency requests = record {
    all_there = omega arith;
    counted = refl;
    bounded = omega arith;
    busy = λ h. omega arith;
  }

  -- What holds of a closed loop with workers at any time: not more requests than workers are sent and
  -- not yet answered; each request is answered, waited for or queued, once; the results are counted; and
  -- while requests are queued, there is a worker that has still to begin or waits.
  pub record IsSound (concurrency : ℕ) (requests : List R) (s : ClosedLoop R A) : Type 0 where
    pub at_most : length s.waiting ≤ concurrency
    pub each_once : Perm (answers s) (map answer requests)
    pub done_counts : s.done ≡ length s.results
    pub served : (s.queue ≡ []) ⊎ (0 < s.created + length s.waiting)

  pub loop_run-IsSound :
      (concurrency : ℕ) (requests : List R) (es : List LoopEvent)
      → 0 < concurrency
      → IsSound concurrency requests (loop_run answer es (closed_loop concurrency requests))
  loop_run-IsSound concurrency requests es h =
      let start = closed_loop concurrency requests in
      let s = loop_run answer es start in
      let c =
        loop_run-IsCounted (length requests) (min concurrency (length requests)) es start
          (started-IsCounted concurrency requests) in
      record {
        at_most = omega (arith, c.bounded);
        each_once = loop_run-perm es start;
        done_counts = c.counted;
        served =
            queue_cases s.queue concurrency (length requests) h (omega (arith, c.all_there)) c.busy;
      }
    where
      queue_cases :
          {w : ℕ} (q : List R) (k total : ℕ)
          → 0 < k
          → length q ≤ total
          → (0 < length q → w ≡ min k total)
          → (q ≡ []) ⊎ (0 < w)
      queue_cases [] k total h le f = inl refl
      queue_cases (r ∷ q) k total h le f = inr (omega (arith, f (omega arith)))

  -- When no worker has still to begin and none waits, the results are all the answers.
  pub drained_perm :
      (concurrency : ℕ) (requests : List R) (s : ClosedLoop R A)
      → IsSound concurrency requests s
      → s.created ≡ 0
      → s.waiting ≡ []
      → Perm s.results (map answer requests)
  drained_perm concurrency requests s sound e w = elim sound.served [
    | inl empty ↦
        let gone : s.waiting ++ s.queue ≡ [] = ap (λ xs. xs ++ s.queue) w ∙ empty in
        let given : answers s ≡ s.results =
          ap (λ xs. s.results ++ map answer xs) gone ∙ append-nil s.results in
        subst (λ xs. Perm xs (map answer requests)) given sound.each_once
    | inr busy ↦
        let none_waits : length s.waiting ≡ 0 = ap length w in
        absurd (omega (arith, busy, e, none_waits))
  ]
