-- ===== src/Planner/Memory/Lacks.antt =====
-- planner/memory.py, `estimate_memory`: what its verdict lacks, and what the claims add to it.
use native.Mathlib.Nat.{div-mul-le_self, mul-le-mul_right}
use open_baseten_inference.Prelude.{
  ℕ, zero, suc, ◌+◌, ◌-◌, ◌*◌, ◌/◌, ◌≤◌, ◌<◌, max, ◌≡◌, refl, subst, Bool, true, false, not, ◌&&◌,
  ◌||◌, Option, none, some, ltb, leb, arith, if◌then◌else◌, if_cases, if_intro, Floats, lt,
  some-injective,
}
use open_baseten_inference.Schemas.Plan.{
  Confidence, MemoryEstimate, TokenLengths, p95_sequence_tokens,
}
use open_baseten_inference.Planner.Memory.{
  MemoryModelConfig, unknown_kv_min_spare_bytes, verdict, claim_free, claim_least, is_forced,
  Verdict, spare, held, over, compute_memory_fraction, used_fraction,
}

module _ (F : Floats) where
  open F use {Float, floor, mul, sub, literal}

  -- the memory that the KV cache must have: the sequences that the configuration wants, where the
  -- weights and the size of a token are known, and 2 GiB where they are not
  abbrev pub wanted : MemoryModelConfig F → ℕ → Option ℕ → Option ℕ → ℕ
  wanted cfg context (some w) (some (suc kv)) = suc kv * context * cfg.min_kv_sequences
  wanted cfg context _ _ = unknown_kv_min_spare_bytes

  pub verdict-fits :
      (cfg : MemoryModelConfig F) (workload : TokenLengths) (context : ℕ) (weights kv : Option ℕ)
      (c d : Confidence) (budget fixed : ℕ)
      → (verdict F cfg workload context weights kv c d budget fixed).fits
        ≡ leb (fixed + wanted cfg context weights kv) budget
  verdict-fits cfg workload context none kv c d budget fixed = refl
  verdict-fits cfg workload context (some w) none c d budget fixed = refl
  verdict-fits cfg workload context (some w) (some zero) c d budget fixed = refl
  verdict-fits cfg workload context (some w) (some (suc kv)) c d budget fixed = refl

  spare_lack : (fixed need budget : ℕ) → (spare F budget fixed need).1 ≡ fixed + need - budget
  spare_lack fixed need budget = ground arith

  pub verdict-shortfall :
      (cfg : MemoryModelConfig F) (workload : TokenLengths) (context : ℕ) (weights : Option ℕ)
      (w : ℕ) (kv : Option ℕ) (c d : Confidence) (budget fixed : ℕ)
      → weights ≡ some w
      → (verdict F cfg workload context weights kv c d budget fixed).shortfall
        ≡ fixed + wanted cfg context (some w) kv - budget
  verdict-shortfall cfg workload context none w kv c d budget fixed h = absurd (cc)
  verdict-shortfall cfg workload context (some v) w none c d budget fixed h =
      spare_lack fixed unknown_kv_min_spare_bytes budget
  verdict-shortfall cfg workload context (some v) w (some zero) c d budget fixed h =
      spare_lack fixed unknown_kv_min_spare_bytes budget
  verdict-shortfall cfg workload context (some v) w (some (suc kv)) c d budget fixed h =
      spare_lack fixed (suc kv * context * cfg.min_kv_sequences) budget

  -- what a forced fraction claims beyond the free memory
  abbrev pub claimed : Option Float → ℕ → ℕ → ℕ
  claimed none budget free = 0
  claimed (some f) budget free = budget - free

  -- what a fraction is short of the least one that the configuration allows
  abbrev pub below : Float → ℕ → MemoryModelConfig F → ℕ
  below fraction total cfg =
      if lt F fraction cfg.min_memory_fraction
      then floor (mul (sub cfg.min_memory_fraction fraction) (literal total 1))
      else 0

  -- the largest of what an estimate lacks, where `need` must fit in its budget
  abbrev pub lack : Option Float → MemoryModelConfig F → ℕ → MemoryEstimate F → ℕ
  lack forced cfg need e =
      let fraction =
        used_fraction F forced
          (compute_memory_fraction F e.device_total_bytes e.device_free_bytes cfg) in
      max
        (max (need - e.engine_budget_bytes)
          (claimed forced e.engine_budget_bytes e.device_free_bytes))
        (below fraction e.device_total_bytes cfg)

  pub claim_free-fits :
      (forced : Bool) (budget free : ℕ) (v : Verdict F)
      → (claim_free F forced budget free v).fits ≡ true
      → (v.fits ≡ true) × ((not forced || leb budget free) ≡ true)
  claim_free-fits false budget free v = λ h. (h, refl)
  claim_free-fits true budget free v =
      if_cases (λ (x : Verdict F). x.fits ≡ true → (v.fits ≡ true) × (leb budget free ≡ true))
        (ltb free budget) (λ e h. absurd (cc)) (λ e h. (h, ground arith))

  pub claim_least-fits :
      (fraction : Float) (total : ℕ) (cfg : MemoryModelConfig F) (v : Verdict F)
      → (claim_least F fraction total cfg v).fits ≡ true
      → v.fits ≡ true
  claim_least-fits fraction total cfg v =
      if_cases (λ (x : Verdict F). x.fits ≡ true → v.fits ≡ true)
        (lt F fraction cfg.min_memory_fraction) (λ e h. absurd (cc)) (λ e h. h)

  pub claim_free-shortfall :
      (forced : Option Float) (budget free : ℕ) (v : Verdict F)
      → (claim_free F (is_forced F forced) budget free v).shortfall
        ≡ max v.shortfall (claimed forced budget free)
  claim_free-shortfall none budget free v = omega arith
  claim_free-shortfall (some f) budget free v = ground arith

  pub claim_least-shortfall :
      (fraction : Float) (total : ℕ) (cfg : MemoryModelConfig F) (v : Verdict F)
      → (claim_least F fraction total cfg v).shortfall ≡ max v.shortfall (below fraction total cfg)
  claim_least-shortfall fraction total cfg v = ground arith

  -- the claims change neither estimate of the concurrency
  pub claims-c95 :
      (fraction : Float) (total : ℕ) (cfg : MemoryModelConfig F) (forced : Bool) (budget free : ℕ)
      (v : Verdict F)
      → (claim_least F fraction total cfg (claim_free F forced budget free v)).c95 ≡ v.c95
  claims-c95 fraction total cfg forced budget free v =
      let w = claim_free F forced budget free v in
      let more = floor (mul (sub cfg.min_memory_fraction fraction) (literal total 1)) in
      if_intro (λ (x : Verdict F). x.c95 ≡ v.c95) (lt F fraction cfg.min_memory_fraction)
        {x = record w { fits = false; shortfall = max w.shortfall more }} {y = w} inner inner
    where
      inner : (claim_free F forced budget free v).c95 ≡ v.c95
      inner =
          if_intro (λ (x : Verdict F). x.c95 ≡ v.c95) (forced && ltb free budget)
            {x = record v { fits = false; shortfall = max v.shortfall (budget - free) }} {y = v}
            refl refl

  within : (fixed budget t n : ℕ) → fixed < budget → n ≤ t → t ≤ budget - fixed → fixed + n ≤ budget
  within fixed budget t n a b c = omega arith

  held-c95 :
      (workload : TokenLengths) (kv budget fixed n : ℕ)
      → over F (p95_sequence_tokens workload) (held F budget fixed (suc kv)) ≡ some n
      → fixed + n * max 1 (p95_sequence_tokens workload) * suc kv ≤ budget
  held-c95 workload kv budget fixed n =
      let m = max 1 (p95_sequence_tokens workload) in
      let t = (budget - fixed) / suc kv in
      if_cases
        (λ (o : Option ℕ).
          over F (p95_sequence_tokens workload) o ≡ some n → fixed + n * m * suc kv ≤ budget)
        (ltb fixed budget) {x = some t} {y = none}
        (λ e h.
          let few : n * m ≤ t = subst (λ x. x * m ≤ t) (some-injective h) (div-mul-le_self t m) in
          within fixed budget (t * suc kv) (n * m * suc kv) (ground arith)
            (mul-le-mul_right (suc kv) few) (div-mul-le_self (budget - fixed) (suc kv)))
        (λ e h. absurd (cc))

  -- the tokens of `c` sequences of the p95 length are among those that are held
  pub verdict-c95 :
      (cfg : MemoryModelConfig F) (workload : TokenLengths) (context : ℕ) (weights kv : Option ℕ)
      (k : ℕ) (c d : Confidence) (budget fixed n : ℕ)
      → kv ≡ some k
      → (verdict F cfg workload context weights kv c d budget fixed).c95 ≡ some n
      → fixed + n * max 1 (p95_sequence_tokens workload) * k ≤ budget
  verdict-c95 cfg workload context none kv k c d budget fixed n s h = absurd (cc)
  verdict-c95 cfg workload context (some w) none k c d budget fixed n s h = absurd (cc)
  verdict-c95 cfg workload context (some w) (some zero) k c d budget fixed n s h = absurd (cc)
  verdict-c95 cfg workload context (some w) (some (suc kv)) k c d budget fixed n s h =
      let m = max 1 (p95_sequence_tokens workload) in
      subst (λ x. fixed + n * m * x ≤ budget) (some-injective s)
        (held-c95 workload kv budget fixed n h)

  pub enough : (need budget a b : ℕ) → need ≤ budget + max (max (need - budget) a) b
  enough need budget a b = omega arith

  pub le_of_leb : (a b : ℕ) → leb a b ≡ true → a ≤ b
  le_of_leb a b h = ground arith
