-- ===== src/Planner/Memory/Fit.antt =====
-- planner/memory.py, `estimate_memory`: what an estimate that fits, one that does not, and the
-- estimated concurrency say of the memory.
use open_baseten_inference.Prelude.{
  ℕ, ◌+◌, ◌-◌, ◌*◌, ◌≤◌, max, ◌≡◌, sym, ap, ◌∙◌, subst, true, not, ◌||◌, Option, some, List, [],
  ◌∷◌, map, leb, if◌then◌else◌, Floats, some-injective,
}
use open_baseten_inference.Schemas.Plan.{
  high, medium, weight_bytes_is_exact, KvEstimate, MemoryEstimate, fixed_bytes, ModelProfile,
  TokenLengths, p95_sequence_tokens,
}
use open_baseten_inference.Schemas.Hardware.{GpuDevice}
use open_baseten_inference.Planner.Memory.{
  MemoryModelConfig, estimate_memory, estimate_on, verdict, claim_free, claim_least, is_forced,
  least, compute_memory_fraction, used_fraction, shard_weights, staged,
}
use open_baseten_inference.Planner.Memory.Lacks.{
  wanted, verdict-fits, verdict-shortfall, claimed, below, lack, claim_free-fits, claim_least-fits,
  claim_free-shortfall, claim_least-shortfall, claims-c95, verdict-c95, enough, le_of_leb,
}

module _ (F : Floats) where
  open F use {Float, floor, mul, sub, literal}

  -- what holds of each estimate on a total and a free memory holds of an estimate on GPUs
  on_gpus :
      (P : MemoryEstimate F → Type 0) (model : ModelProfile) (gpus : List GpuDevice) (tp : ℕ)
      (kv : KvEstimate) (context : ℕ) (workload : TokenLengths) (cfg : MemoryModelConfig F) (pp : ℕ)
      (forced : Option Float) (e : MemoryEstimate F)
      → ((total free : ℕ) → P (estimate_on F total free model tp kv context workload cfg pp forced))
      → estimate_memory F model gpus tp kv context workload cfg pp forced ≡ some e
      → P e
  unfolding estimate_memory
  on_gpus P model [] tp kv context workload cfg pp forced e each h = absurd (cc)
  on_gpus P model (g ∷ gs) tp kv context workload cfg pp forced e each h =
      subst P (some-injective h) (
        each (least g.total_memory_bytes (map (λ x. x.total_memory_bytes) gs))
          (least g.free_memory_bytes (map (λ x. x.free_memory_bytes) gs)))

  module _ (model : ModelProfile) (gpus : List GpuDevice) (tp : ℕ) (kv : KvEstimate) (context : ℕ)
      (workload : TokenLengths) (cfg : MemoryModelConfig F) (pp : ℕ) (forced : Option Float)
      (e : MemoryEstimate F) where
    -- An estimate that fits leaves, in the engine's budget, the memory wanted for the KV cache beside
    -- the weights and the overheads, and a forced fraction claims only memory that is free.
    pub estimate_memory-Fits :
        estimate_memory F model gpus tp kv context workload cfg pp forced ≡ some e
        → e.fits ≡ true
        → (fixed_bytes F e + wanted F cfg context e.weights_bytes e.kv_bytes_per_token_per_gpu
            ≤ e.engine_budget_bytes)
          × ((not (is_forced F forced) || leb e.engine_budget_bytes e.device_free_bytes) ≡ true)
    estimate_memory-Fits =
        on_gpus
          (λ x.
            x.fits ≡ true
            → (fixed_bytes F x + wanted F cfg context x.weights_bytes x.kv_bytes_per_token_per_gpu
                ≤ x.engine_budget_bytes)
              × ((not (is_forced F forced) || leb x.engine_budget_bytes x.device_free_bytes)
                  ≡ true))
          model gpus tp kv context workload cfg pp forced e
          (λ total free h.
            let fraction = used_fraction F forced (compute_memory_fraction F total free cfg) in
            let budget = floor (mul fraction (literal total 1)) in
            let weights = shard_weights F model.weight_bytes (tp * pp) cfg in
            let exact = if weight_bytes_is_exact model.weight_size_source then high else medium in
            let fixed =
              fixed_bytes F (estimate_on F total free model tp kv context workload cfg pp forced) in
            let k = staged F pp kv.bytes_per_token_per_gpu in
            let v = verdict F cfg workload context weights k kv.confidence exact budget fixed in
            let w = claim_free F (is_forced F forced) budget free v in
            let (room, claim) =
              claim_free-fits F (is_forced F forced) budget free v
                (claim_least-fits F fraction total cfg w h) in
            (
              le_of_leb F (fixed + wanted F cfg context weights k) budget (
                  sym
                    (verdict-fits F cfg workload context weights k kv.confidence exact budget fixed)
                  ∙ room),
              claim,
            ))

    -- Where the weights are known, the reported shortfall is the largest of three lacks: of room in the
    -- budget for the weights, the overheads and the memory wanted for the KV cache; of free memory, where
    -- a forced fraction claims more; and of what the fraction is below the least one allowed. So the
    -- budget and the shortfall together hold the first.
    pub estimate_memory-shortfall :
        (u : ℕ)
        → estimate_memory F model gpus tp kv context workload cfg pp forced ≡ some e
        → e.weights_bytes ≡ some u
        → let need = fixed_bytes F e + wanted F cfg context (some u) e.kv_bytes_per_token_per_gpu in
          (e.shortfall_bytes ≡ lack F forced cfg need e)
          × (need ≤ e.engine_budget_bytes + e.shortfall_bytes)
    estimate_memory-shortfall u =
        on_gpus
          (λ x.
            x.weights_bytes ≡ some u
            → let need =
                fixed_bytes F x + wanted F cfg context (some u) x.kv_bytes_per_token_per_gpu in
              (x.shortfall_bytes ≡ lack F forced cfg need x)
              × (need ≤ x.engine_budget_bytes + x.shortfall_bytes))
          model gpus tp kv context workload cfg pp forced e
          (λ total free h.
            let fraction = used_fraction F forced (compute_memory_fraction F total free cfg) in
            let budget = floor (mul fraction (literal total 1)) in
            let weights = shard_weights F model.weight_bytes (tp * pp) cfg in
            let exact = if weight_bytes_is_exact model.weight_size_source then high else medium in
            let fixed =
              fixed_bytes F (estimate_on F total free model tp kv context workload cfg pp forced) in
            let k = staged F pp kv.bytes_per_token_per_gpu in
            let v = verdict F cfg workload context weights k kv.confidence exact budget fixed in
            let w = claim_free F (is_forced F forced) budget free v in
            let less = below F fraction total cfg in
            let exactly : (claim_least F fraction total cfg w).shortfall
                ≡ max
                    (max (fixed + wanted F cfg context (some u) k - budget)
                      (claimed F forced budget free))
                    less =
              claim_least-shortfall F fraction total cfg w
              ∙ ap (λ x. max x less)
                  (claim_free-shortfall F forced budget free v
                    ∙ ap (λ x. max x (claimed F forced budget free))
                        (verdict-shortfall F cfg workload context weights u k kv.confidence exact
                          budget fixed h)) in
            (
              exactly,
              subst (λ x. fixed + wanted F cfg context (some u) k ≤ budget + x) (sym exactly)
                  (enough F (fixed + wanted F cfg context (some u) k) budget
                    (claimed F forced budget free) less),
            ))

    -- The estimated number of sequences of the p95 length fits in the budget, beside the weights and
    -- the overheads.
    pub estimate_memory-concurrency :
        (size n : ℕ)
        → estimate_memory F model gpus tp kv context workload cfg pp forced ≡ some e
        → e.kv_bytes_per_token_per_gpu ≡ some size
        → e.estimated_max_concurrency_p95 ≡ some n
        → fixed_bytes F e + n * max 1 (p95_sequence_tokens workload) * size ≤ e.engine_budget_bytes
    estimate_memory-concurrency size n =
        on_gpus
          (λ x.
            x.kv_bytes_per_token_per_gpu ≡ some size
            → x.estimated_max_concurrency_p95 ≡ some n
            → fixed_bytes F x + n * max 1 (p95_sequence_tokens workload) * size
              ≤ x.engine_budget_bytes)
          model gpus tp kv context workload cfg pp forced e
          (λ total free s h.
            let fraction = used_fraction F forced (compute_memory_fraction F total free cfg) in
            let budget = floor (mul fraction (literal total 1)) in
            let weights = shard_weights F model.weight_bytes (tp * pp) cfg in
            let exact = if weight_bytes_is_exact model.weight_size_source then high else medium in
            let fixed =
              fixed_bytes F (estimate_on F total free model tp kv context workload cfg pp forced) in
            let k = staged F pp kv.bytes_per_token_per_gpu in
            let v = verdict F cfg workload context weights k kv.confidence exact budget fixed in
            let w = claim_free F (is_forced F forced) budget free v in
            verdict-c95 F cfg workload context weights k size kv.confidence exact budget fixed n s
              (sym (claims-c95 F fraction total cfg (is_forced F forced) budget free v) ∙ h))
