-- ===== src/Planner/Scoring/Selection.antt =====
-- planner/scoring.py, `select_best`, and the results that it is given by `score_results`.
use mathlib.Core.List.{Memᴰ}
use open_baseten_inference.Prelude.{
  ◌≡◌, refl, Bool, true, false, not, ◌||◌, Option, none, some, List, [], ◌∷◌, keep, All, All-map,
  All-mem, All-keep, All-keep_test, All-Memᴰ, All-keep_back, keep-none, Floats, first_top,
  first_top-IsTop, IsTop,
}
use open_baseten_inference.Planner.Scoring.{
  ScoredResult, Selected, eligible, by_score, best_of, or_else, select_best,
}

module _ (F : Floats) where
  open F use {Float, le, le_total, le_trans}

  -- the results that compete with a winner: the eligible ones, or all valid ones
  abbrev pub competes : Bool → ScoredResult F → Bool
  competes true s = eligible F s
  competes false s = s.valid

  -- What a selection is: nothing, if no result is valid; or a valid result that no other exceeds among
  -- those that compete, which are the eligible ones if there are any.
  abbrev pub IsBest : List (ScoredResult F) → Option (Selected F) → Type 0
  IsBest scored none = All (λ s. s.valid ≡ false) scored
  IsBest scored (some sel) =
      Memᴰ sel.winner scored
      × (competes sel.meets_slo sel.winner ≡ true)
      × All (λ s. (not (competes sel.meets_slo s) || le s.score (sel.winner).score) ≡ true) scored
      × All (λ s. (sel.meets_slo || not (eligible F s)) ≡ true) scored

  by_score-IsTop :
      (s : ScoredResult F) (ss : List (ScoredResult F))
      → IsTop (by_score F) (first_top (by_score F) s ss) (s ∷ ss)
  by_score-IsTop =
      first_top-IsTop (by_score F) (λ a b. le_total a.score b.score)
        (λ a b c. le_trans a.score b.score c.score)

  pool-IsBest :
      (b : Bool) (scored pool : List (ScoredResult F))
      → keep (competes b) scored ≡ pool
      → All (λ s. (b || not (eligible F s)) ≡ true) scored
      → (keep (competes b) scored ≡ [] → IsBest scored none)
      → IsBest scored (best_of F b pool)
  pool-IsBest b scored [] e rest empty = empty e
  pool-IsBest b scored (s ∷ ss) e rest empty =
      let (found, above) = by_score-IsTop s ss in
      let w = first_top (by_score F) s ss in
      let in_keep : Memᴰ w (keep (competes b) scored) = rw e found in
      (
        All-mem (λ x. Memᴰ x scored) (keep (competes b) scored)
            (All-keep (λ x. Memᴰ x scored) (competes b) scored (All-Memᴰ scored)) in_keep,
        All-mem (λ x. competes b x ≡ true) (keep (competes b) scored)
            (All-keep_test (competes b) scored) in_keep,
        All-keep_back (competes b) (λ x. le x.score w.score) scored (rw e above),
        rest,
      )

  chosen-IsBest :
      (scored pool : List (ScoredResult F))
      → keep (eligible F) scored ≡ pool
      → IsBest scored
          (or_else F (best_of F true pool) (best_of F false (keep (λ s. s.valid) scored)))
  chosen-IsBest scored [] e =
      pool-IsBest false scored (keep (λ s. s.valid) scored) refl
        (All-map (λ s. eligible F s ≡ false) (λ s. not (eligible F s) ≡ true) (λ s h. rw h) scored
          (keep-none (eligible F) scored e))
        (keep-none (λ s. s.valid) scored)
  chosen-IsBest scored (s ∷ ss) e =
      pool-IsBest true scored (s ∷ ss) e
        (All-map (λ x. Memᴰ x scored) (λ x. true ≡ true) (λ x m. refl) scored (All-Memᴰ scored))
        (λ k. absurd (cc))

  -- `select_best` returns nothing only if no result is valid. Otherwise its winner is one of the
  -- results; if any result is valid and within the SLO, so is the winner, and no other such result
  -- scores higher; if none is, the selection says so, the winner is valid and no valid result scores
  -- higher.
  pub select_best-IsBest : (scored : List (ScoredResult F)) → IsBest scored (select_best F scored)
  unfolding select_best
  select_best-IsBest scored = chosen-IsBest scored (keep (eligible F) scored) refl
