-- ===== src/Benchmark/Winner.antt =====
-- benchmark/tuner.py, `_pick_winner`: which operating point it finds.
use mathlib.Core.List.{Memᴰ}
use open_baseten_inference.Prelude.{
  ℕ, suc, ◌≤◌, ◌≡◌, refl, sym, ap, subst, true, false, Option, none, some, List, [], ◌∷◌, map,
  Floats, Bool-cases, inl, inr, All, All-map, All-mem, ◌==◌, arith, keep,
}
use open_baseten_inference.Schemas.Benchmark.{BenchmarkResult}
use open_baseten_inference.Planner.Scoring.{
  ScoredResult, Selected, score_results, scored_from, scored_one, select_best, bests, is_valid,
}
use open_baseten_inference.Planner.Scoring.Selection.{IsBest, select_best-IsBest}
use open_baseten_inference.Schemas.Tuning.{CandidateEvaluation, WorkloadProfile, TuningSettings}
use open_baseten_inference.Benchmark.Tasks.{Evaluator, Tuning, Result, ok, raised, no_viable_plan}
use open_baseten_inference.Benchmark.Tuner.{
  Operating, operating, find_winner, selected, pick_among, pick_winner, zip_scores, scores,
}

All-map_back {ℓ κ ℓ'} :
    {A : Type ℓ} {B : Type ℓ'} (P : B → Type κ) (f : A → B) (xs : List A)
    → All P (map f xs)
    → All (λ x. P (f x)) xs
All-map_back P f [] h = tt
All-map_back P f (x ∷ xs) h = (h.0, All-map_back P f xs h.1)

module _ (F : Floats) where
  abbrev Pair : Type 0
  Pair = Operating F × ScoredResult F

  abbrev score_of : Pair → ScoredResult F
  score_of x = x.1

  -- the scores are those of the results, in order, and numbered
  module _ (score : ℕ → BenchmarkResult F → ScoredResult F)
      (keeps_ref : (n : ℕ) (r : BenchmarkResult F) → (score n r).ref ≡ n)
      (keeps_result : (n : ℕ) (r : BenchmarkResult F) → (score n r).result ≡ r) where
    refs_from :
        (n m : ℕ) (rs : List (BenchmarkResult F))
        → m ≤ n
        → All (λ (t : ScoredResult F). m ≤ t.ref) (scored_from F score n rs)
    refs_from n m [] h = tt
    refs_from n m (r ∷ rs) h = (omega (arith, keeps_ref n r), refs_from (suc n) m rs (omega arith))

    -- the score with the winner's number is the winner
    ref_unique :
        (n : ℕ) (rs : List (BenchmarkResult F)) (w : ScoredResult F)
        → Memᴰ w (scored_from F score n rs)
        → All (λ (t : ScoredResult F). (t.ref == w.ref) ≡ true → t ≡ w) (scored_from F score n rs)
    ref_unique n [] w m = elim m [ ]
    ref_unique n (r ∷ rs) w (Memᴰ.head e) = (
      (λ h. sym e),
      All-map (λ (t : ScoredResult F). suc n ≤ t.ref)
          (λ (t : ScoredResult F). (t.ref == w.ref) ≡ true → t ≡ w)
          (λ t above h.
            let same : w.ref ≡ (score n r).ref = ap (λ (x : ScoredResult F). x.ref) e in
            absurd (ground (arith, keeps_ref n r, same)))
          (scored_from F score (suc n) rs) (refs_from (suc n) (suc n) rs (omega arith)),
    )
    ref_unique n (r ∷ rs) w (Memᴰ.tail m) = (
      (λ h. absurd (ground (arith, keeps_ref n r, later_ref (suc n) rs m))),
      ref_unique (suc n) rs w m,
    )
      where
        later_ref :
            (k : ℕ) (qs : List (BenchmarkResult F)) → Memᴰ w (scored_from F score k qs) → k ≤ w.ref
        later_ref k qs p =
            All-mem (λ (t : ScoredResult F). k ≤ t.ref) (scored_from F score k qs)
              (refs_from k k qs (omega arith)) p

    zip-map :
        (n : ℕ) (os : List (Operating F))
        → let scored = scored_from F score n (map (λ (o : Operating F). o.point) os) in
          (map score_of (zip_scores F os scored) ≡ scored)
          × All (λ (x : Pair). (x.1).result ≡ (x.0).point) (zip_scores F os scored)
    zip-map n [] = (refl, tt)
    zip-map n (o ∷ os) =
        let (same, own) = zip-map (suc n) os in
        (ap (λ ss. score n o.point ∷ ss) same, (keeps_result n o.point, own))

  -- What is found among operating points, with the scores that they have got: nothing, if no score is
  -- valid; or a point that stands beside a best score, which is the score of its measurement.
  abbrev pub IsPicked : List (Operating F) → List (ScoredResult F) → Result (Operating F) → Type 0
  IsPicked os scored (raised e) = (e ≡ no_viable_plan) × All (λ s. s.valid ≡ false) scored
  IsPicked os scored (ok o) =
      (selection : Selected F) × Memᴰ (o, selection.winner) (zip_scores F os scored)
      × ((selection.winner).result ≡ o.point)
      × IsBest F scored (some selection)

  -- The loop finds the pair of a winner that is among the scores.
  find_winner-ok :
      (w : ScoredResult F) (pairs : List Pair) (s : Tuning F)
      → Memᴰ w (map score_of pairs)
      → All (λ (x : Pair). ((x.1).ref == w.ref) ≡ true → x.1 ≡ w) pairs
      → (o : Operating F) × ((find_winner F w pairs s).1 ≡ ok o) × Memᴰ (o, w) pairs
  find_winner-ok w [] s m unique = elim m [ ]
  find_winner-ok w ((o, t) ∷ pairs) s m unique = elim (Bool-cases (t.ref == w.ref)) [
    | inl e ↦ (o, rw e refl, Memᴰ.head (ap (λ z. (o, z)) (sym (unique.0 e))))
    | inr e ↦
        let (p, found, there) = find_winner-ok w pairs s (not_first m e) unique.1 in
        (p, rw e found, Memᴰ.tail there)
  ]
    where
      not_first :
          Memᴰ w (t ∷ map score_of pairs) → (t.ref == w.ref) ≡ false → Memᴰ w (map score_of pairs)
      not_first (Memᴰ.head h) e =
          let same : w.ref ≡ t.ref = ap (λ (x : ScoredResult F). x.ref) h in
          absurd (ground (arith, e))
      not_first (Memᴰ.tail h) e = h

  selected-IsPicked :
      (os : List (Operating F)) (scored : List (ScoredResult F)) (o : Option (Selected F))
      (s : Tuning F)
      → IsBest F scored o
      → map score_of (zip_scores F os scored) ≡ scored
      → All (λ (x : Pair). (x.1).result ≡ (x.0).point) (zip_scores F os scored)
      → ((w : ScoredResult F)
          → Memᴰ w scored
          → All (λ (t : ScoredResult F). (t.ref == w.ref) ≡ true → t ≡ w) scored)
      → IsPicked os scored (selected F o (zip_scores F os scored) s).1
  selected-IsPicked os scored none s best same own unique = (refl, best)
  selected-IsPicked os scored (some selection) s best same own unique =
      let w = selection.winner in
      let pairs = zip_scores F os scored in
      let (o, found, there) = find_winner-ok w pairs s (subst (λ ss. Memᴰ w ss) (sym same) best.0) (
        All-map_back (λ (t : ScoredResult F). (t.ref == w.ref) ≡ true → t ≡ w) score_of pairs
          (subst (λ ss. All (λ (t : ScoredResult F). (t.ref == w.ref) ≡ true → t ≡ w) ss) (sym same)
            (unique w best.0))) in
      rw found
        (selection, there, All-mem (λ (x : Pair). (x.1).result ≡ (x.0).point) pairs own there, best)

  module _ (env : Evaluator F) (workload : WorkloadProfile F) (settings : TuningSettings F) where
    pick_among-IsPicked :
        (os : List (Operating F)) (s : Tuning F)
        → IsPicked os
            (scores F env workload settings (map (λ (o : Operating F). o.point) os))
            (pick_among F env workload settings os s).1
    unfolding score_results
    pick_among-IsPicked [] s = (refl, tt)
    pick_among-IsPicked (o ∷ os) s =
        let rs = map (λ (x : Operating F). x.point) (o ∷ os) in
        let b = bests F (keep (λ r. is_valid F r settings.scoring) rs) in
        let score =
          scored_one F workload.objective workload.latency_constraints settings.scoring b in
        let scored = scored_from F score 0 rs in
        let (same, own) = zip-map score (λ n r. refl) (λ n r. refl) 0 (o ∷ os) in
        selected-IsPicked (o ∷ os) scored (select_best F scored) s (select_best-IsBest F scored)
          same own (λ w m. ref_unique score (λ n r. refl) (λ n r. refl) 0 rs w m)

    -- `_pick_winner` raises only where none of the operating points of the sweeps has a valid score.
    -- Otherwise its loop finds one of them: its own score, which is that of its measurement, is valid and
    -- within the SLO, and the highest of such scores, if there are any, and else the highest of the valid
    -- scores.
    pub pick_winner-IsPicked :
        (ws : List (CandidateEvaluation F)) (s : Tuning F)
        → let os = operating F env workload settings s.evaluations ws in
          IsPicked os
            (score_results F
              (map (λ (o : Operating F). o.point) os)
              workload.objective
              workload.latency_constraints
              settings.scoring)
            (pick_winner F env workload settings ws s).1
    unfolding pick_winner
    pick_winner-IsPicked ws s =
        pick_among-IsPicked (operating F env workload settings s.evaluations ws) s
