-- ===== src/Planner/Sweep/Choice.antt =====
-- planner/scoring.py, `choose_concurrency`: what the walk up the concurrencies does to the throughput.
use mathlib.Core.List.{Memᴰ}
use open_baseten_inference.Prelude.{
  ◌≡◌, refl, ap, Bool, true, false, not, ◌&&◌, ◌||◌, List, [], ◌∷◌, ◌++◌, All, arith, Floats, inl,
  inr, one_of_two, Bool-cases, if_cases, if◌then◌else◌, zero_float, max_float, lt,
}
use open_baseten_inference.Schemas.Benchmark.{BenchmarkResult}
use open_baseten_inference.Planner.Scoring.{ScoringConfig}
use open_baseten_inference.Planner.Sweep.{gain, tps_gain, is_plateau, climb}

module _ (F : Floats) where
  open F use {Float, le, sub, div, literal, le_total, le_trans, tiny, tiny_pos, gain_le_zero}

  max_tiny_pos : (a : Float) → le (max_float F a tiny) (zero_float F) ≡ false
  max_tiny_pos a =
      if_cases (λ m. le m (zero_float F) ≡ false) (lt F a tiny) {x = tiny} {y = a} (λ e. tiny_pos)
        (λ e. elim (Bool-cases (le a (zero_float F))) [
          | inl h ↦
              absurd (cc (le_trans tiny a (zero_float F) (not_false (le tiny a) e) h, tiny_pos))
          | inr h ↦ h
        ])
    where
      not_false : (b : Bool) → not b ≡ false → b ≡ true
      not_false true e = refl
      not_false false e = absurd (cc)

  -- where the relative gain is above 0, so is the gain
  gain_pos : (a b : Float) → le (gain F a b) (zero_float F) ≡ false → le a b ≡ true
  gain_pos a b h = elim (le_total a b) [
    | inl e ↦ e
    | inr e ↦ absurd (cc (gain_le_zero a b (max_float F a tiny) e (max_tiny_pos a)))
  ]

  abbrev pub tps_le : BenchmarkResult F → BenchmarkResult F → Bool
  tps_le a b = le a.output_tokens_per_second b.output_tokens_per_second

  le_self : (a : Float) → le a a ≡ true
  le_self a = elim (le_total a a) [ inl e ↦ e | inr e ↦ e ]

  step-rises :
      (cfg : ScoringConfig F) (a b : BenchmarkResult F)
      → let c =
          if le (tps_gain F a b) (zero_float F) then a else if is_plateau F cfg a b then a else b in
        (tps_le a c ≡ true) × ((xs : List (BenchmarkResult F)) → Memᴰ c (a ∷ b ∷ xs))
  step-rises cfg a b =
      if_cases (λ c. (tps_le a c ≡ true) × ((xs : List (BenchmarkResult F)) → Memᴰ c (a ∷ b ∷ xs)))
        (le (tps_gain F a b) (zero_float F)) {x = a} {y = if is_plateau F cfg a b then a else b}
        (λ e. stay)
        (λ e.
          if_cases
            (λ c. (tps_le a c ≡ true) × ((xs : List (BenchmarkResult F)) → Memᴰ c (a ∷ b ∷ xs)))
            (is_plateau F cfg a b) {x = a} {y = b} (λ h. stay)
            (λ h. (
              gain_pos a.output_tokens_per_second b.output_tokens_per_second e,
              λ xs. Memᴰ.tail (Memᴰ.head refl),
            )))
    where
      stay : (tps_le a a ≡ true) × ((xs : List (BenchmarkResult F)) → Memᴰ a (a ∷ b ∷ xs))
      stay = (le_self a.output_tokens_per_second, λ xs. Memᴰ.head refl)

  pub climb-rises :
      (cfg : ScoringConfig F) (r : BenchmarkResult F) (rs : List (BenchmarkResult F))
      → (tps_le r (climb F cfg r rs) ≡ true) × Memᴰ (climb F cfg r rs) (r ∷ rs)
  unfolding climb
  climb-rises cfg r [] = (le_self r.output_tokens_per_second, Memᴰ.head refl)
  climb-rises cfg r (s ∷ rs) =
      let z =
        if le (tps_gain F r s) (zero_float F) then r else if is_plateau F cfg r s then r else s in
      let (up, one) = step-rises cfg r s in
      let (above, found) = climb-rises cfg z rs in
      (
        le_trans r.output_tokens_per_second z.output_tokens_per_second
            (climb F cfg z rs).output_tokens_per_second up above,
        one_of_two r s rs found one,
      )

  -- What counts as an improvement from one point to the next: more throughput, and, unless the relative
  -- gain is at least `plateau_min_gain`, a relative rise of the p95 latency of at most
  -- `plateau_latency_rise`.
  abbrev pub rise : Float → Float → Float
  rise a b = div (sub b a) (if le tiny a then a else tiny)

  abbrev pub improves : ScoringConfig F → BenchmarkResult F → BenchmarkResult F → Bool
  improves cfg a b =
      not (le (rise a.output_tokens_per_second b.output_tokens_per_second) (literal 0 1))
      && (le cfg.plateau_min_gain (rise a.output_tokens_per_second b.output_tokens_per_second)
          || le (rise a.latency_p95_ms b.latency_p95_ms) cfg.plateau_latency_rise)

  -- A walk from a point through the points above it: where none of them is an improvement, it stays;
  -- else it passes those that are none, up to one that is, and goes on from there.
  pub data Walk (cfg : ScoringConfig F)
      : BenchmarkResult F → List (BenchmarkResult F) → BenchmarkResult F → Type 0 where
    stay :
        (a : BenchmarkResult F) (above : List (BenchmarkResult F))
        → All (λ x. improves cfg a x ≡ false) above
        → Walk cfg a above a
    move :
        (a b d : BenchmarkResult F) (passed rest above : List (BenchmarkResult F))
        → All (λ x. improves cfg a x ≡ false) passed
        → improves cfg a b ≡ true
        → Walk cfg b rest d
        → above ≡ passed ++ b ∷ rest
        → Walk cfg a above d

  -- one more point that is no improvement
  pass :
      (cfg : ScoringConfig F) (a x d : BenchmarkResult F) (above : List (BenchmarkResult F))
      → improves cfg a x ≡ false
      → Walk cfg a above d
      → Walk cfg a (x ∷ above) d
  pass cfg a x d above h (Walk.stay _ _ all) = Walk.stay a (x ∷ above) (h, all)
  pass cfg a x d above h (Walk.move _ b _ passed rest _ all up walk e) =
      Walk.move a b d (x ∷ passed) rest (x ∷ above) (h, all) up walk (ap (λ ys. x ∷ ys) e)

  rise-gain : (a b : Float) → gain F a b ≡ rise a b
  rise-gain a b = ground arith

  step-improves :
      (cfg : ScoringConfig F) (a b : BenchmarkResult F)
      → (if le (tps_gain F a b) (zero_float F) then a else if is_plateau F cfg a b then a else b)
        ≡ (if improves cfg a b then b else a)
  step-improves cfg a b = ground arith

  pub climb-Walk :
      (cfg : ScoringConfig F) (r : BenchmarkResult F) (rs : List (BenchmarkResult F))
      → Walk cfg r rs (climb F cfg r rs)
  unfolding climb
  climb-Walk cfg r [] = Walk.stay r [] tt
  climb-Walk cfg r (s ∷ rs) = rw (step-improves cfg r s) (elim (Bool-cases (improves cfg r s)) [
    | inl e ↦ rw e (Walk.move r s (climb F cfg s rs) [] rs (s ∷ rs) tt e (climb-Walk cfg s rs) refl)
    | inr e ↦ rw e (pass cfg r s (climb F cfg r rs) rs e (climb-Walk cfg r rs))
  ])
