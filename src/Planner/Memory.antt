-- ===== src/Planner/Memory.antt =====
-- src/servepilot/planner/memory.py, over any floats. Notes are left out. The bytes that are left for
-- the KV cache may be negative in the source: the comparisons with them are written as comparisons of
-- sums, and the values reported from them are clamped at 0 as in the source.
pub mod Fit
pub mod Lacks
pub mod Smallest
use open_baseten_inference.Prelude.{
  ℕ, zero, suc, ◌+◌, ◌-◌, ◌*◌, ◌/◌, max, min, Bool, true, false, not, ◌&&◌, ◌||◌, Option, none,
  some, List, [], ◌∷◌, map, ltb, leb, ◌==◌, if◌then◌else◌, Floats, lt, max_float, min_float,
  zero_float, sort_by,
}
use open_baseten_inference.Schemas.Plan.{
  Confidence, high, medium, low, unknown, KvEstimate, MemoryEstimate, or_zero, ModelProfile,
  weight_bytes_is_exact, TokenLengths, p50_sequence_tokens, p95_sequence_tokens,
}
use open_baseten_inference.Schemas.Hardware.{GpuDevice}

-- 2 GiB
abbrev pub unknown_kv_min_spare_bytes : ℕ
unknown_kv_min_spare_bytes = 2147483648

-- `min` over a generator, with the first number given
abbrev pub least : ℕ → List ℕ → ℕ
least n [] = n
least n (m ∷ ms) = least (min n m) ms

module _ (F : Floats) where
  open F use {Float, le, add, sub, mul, div, literal, floor, round_two}

  pub record MemoryModelConfig : Type 0 where
    pub headroom_fraction : Float
    pub min_headroom_bytes : ℕ
    pub engine_overhead_bytes : ℕ
    pub cuda_graph_bytes : ℕ
    pub comm_buffer_bytes_per_tp_rank : ℕ
    pub activation_fraction : Float
    pub weight_shard_overhead : Float
    pub max_memory_fraction : Float
    pub min_memory_fraction : Float
    pub min_kv_sequences : ℕ

  unfoldable pub safety_reserve_bytes : ℕ → MemoryModelConfig → ℕ
  safety_reserve_bytes total cfg =
      let share = mul cfg.headroom_fraction (literal total 1) in
      if lt F share (literal cfg.min_headroom_bytes 1) then cfg.min_headroom_bytes else floor share

  -- where the reserve is above the free memory the source's fraction is negative, and clamped to 0
  unfoldable pub compute_memory_fraction : ℕ → ℕ → MemoryModelConfig → Float
  unfolding safety_reserve_bytes
  compute_memory_fraction total free cfg =
      let reserve = safety_reserve_bytes total cfg in
      let percent = floor (mul (literal (free - reserve) total) (literal 100 1)) in
      if total == 0
      then zero_float F
      else if ltb free reserve
      then zero_float F
      else max_float F (zero_float F) (min_float F cfg.max_memory_fraction (literal percent 100))

  unfoldable pub sharded_weight_bytes : ℕ → ℕ → MemoryModelConfig → ℕ
  sharded_weight_bytes weight_bytes shards cfg =
      if leb shards 1
      then weight_bytes
      else floor (mul (literal weight_bytes shards) (add (literal 1 1) cfg.weight_shard_overhead))

  abbrev pub shard_weights : Option ℕ → ℕ → MemoryModelConfig → Option ℕ
  shard_weights none shards cfg = none
  shard_weights (some w) shards cfg = some (sharded_weight_bytes w shards cfg)

  -- the KV bytes per token and GPU, split over the pipeline stages
  abbrev pub staged : ℕ → Option ℕ → Option ℕ
  staged pp none = none
  staged pp (some kv) = if ltb 1 pp then some (max 1 (kv / pp)) else some kv

  -- what the tests on memory find: whether the replica fits, what it lacks, the tokens and the
  -- sequences that the KV cache can hold, and the confidence
  pub record Verdict : Type 0 where
    pub fits : Bool
    pub shortfall : ℕ
    pub tokens : Option ℕ
    pub c50 : Option ℕ
    pub c95 : Option ℕ
    pub confidence : Confidence

  -- the bytes that `fits` wants spare, or what is lacking of them
  abbrev pub spare : ℕ → ℕ → ℕ → Bool × ℕ
  spare budget fixed wanted = (
    leb (fixed + wanted) budget,
    if leb (fixed + wanted) budget then 0 else fixed + wanted - budget,
  )

  -- `if kv_available > 0`
  abbrev pub held : ℕ → ℕ → ℕ → Option ℕ
  held budget fixed size = if ltb fixed budget then some ((budget - fixed) / size) else none

  abbrev pub over : ℕ → Option ℕ → Option ℕ
  over length none = none
  over length (some tokens) = some (tokens / max 1 length)

  abbrev pub lowered : Confidence → Confidence → Confidence
  lowered high medium = medium
  lowered high low = medium
  lowered c kv = c

  -- the branches on the weights and on the KV size
  abbrev pub verdict :
      MemoryModelConfig
      → TokenLengths
      → ℕ
      → Option ℕ
      → Option ℕ
      → Confidence
      → Confidence
      → ℕ
      → ℕ
      → Verdict
  verdict cfg workload context none kv kv_confidence confidence budget fixed = record {
    fits = (spare budget fixed unknown_kv_min_spare_bytes).0;
    shortfall = 0;
    tokens = none;
    c50 = none;
    c95 = none;
    confidence = unknown;
  }
  verdict cfg workload context (some w) (some (suc kv)) kv_confidence confidence budget fixed =
      let required = suc kv * context * cfg.min_kv_sequences in
      let tokens = held budget fixed (suc kv) in
      record {
        fits = (spare budget fixed required).0;
        shortfall = (spare budget fixed required).1;
        tokens = tokens;
        c50 = over (p50_sequence_tokens workload) tokens;
        c95 = over (p95_sequence_tokens workload) tokens;
        confidence = lowered confidence kv_confidence;
      }
  verdict cfg workload context (some w) _ kv_confidence confidence budget fixed = record {
    fits = (spare budget fixed unknown_kv_min_spare_bytes).0;
    shortfall = (spare budget fixed unknown_kv_min_spare_bytes).1;
    tokens = none;
    c50 = none;
    c95 = none;
    confidence = low;
  }

  -- a forced fraction cannot claim memory that is not free
  abbrev pub claim_free : Bool → ℕ → ℕ → Verdict → Verdict
  claim_free forced budget free v =
      if forced && ltb free budget
      then record v { fits = false; shortfall = max v.shortfall (budget - free) }
      else v

  abbrev pub claim_least : Float → ℕ → MemoryModelConfig → Verdict → Verdict
  claim_least fraction total cfg v =
      if lt F fraction cfg.min_memory_fraction
      then record v {
        fits = false;
        shortfall =
            max v.shortfall (floor (mul (sub cfg.min_memory_fraction fraction) (literal total 1)));
      }
      else v

  abbrev pub is_forced : Option Float → Bool
  is_forced none = false
  is_forced (some f) = true

  abbrev pub used_fraction : Option Float → Float → Float
  used_fraction none computed = computed
  used_fraction (some f) computed = f

  -- nothing where the weights are unknown
  abbrev pub available : Option ℕ → ℕ → Option ℕ
  available none left = none
  available (some w) left = some left

  -- `estimate_memory` on the least total and the least free memory of the GPUs
  abbrev pub estimate_on :
      ℕ
      → ℕ
      → ModelProfile
      → ℕ
      → KvEstimate
      → ℕ
      → TokenLengths
      → MemoryModelConfig
      → ℕ
      → Option Float
      → MemoryEstimate F
  estimate_on total free model tp kv context workload cfg pp forced =
      let fraction = used_fraction forced (compute_memory_fraction total free cfg) in
      let budget = floor (mul fraction (literal total 1)) in
      let weights = shard_weights model.weight_bytes (tp * pp) cfg in
      let activations = floor (mul cfg.activation_fraction (literal total 1)) in
      let comm = if ltb 1 tp then cfg.comm_buffer_bytes_per_tp_rank else 0 in
      let fixed =
        or_zero weights + activations + cfg.cuda_graph_bytes + comm + cfg.engine_overhead_bytes in
      let kv_per_gpu = staged pp kv.bytes_per_token_per_gpu in
      let exact = if weight_bytes_is_exact model.weight_size_source then high else medium in
      let v = claim_least fraction total cfg (
        claim_free (is_forced forced) budget free
          (verdict cfg workload context weights kv_per_gpu kv.confidence exact budget fixed)) in
      record {
        device_total_bytes = total;
        device_free_bytes = free;
        memory_fraction = round_two fraction;
        engine_budget_bytes = budget;
        weights_bytes = weights;
        activations_bytes = activations;
        cuda_graph_bytes = cfg.cuda_graph_bytes;
        communication_bytes = comm;
        engine_overhead_bytes = cfg.engine_overhead_bytes;
        safety_reserve_bytes = safety_reserve_bytes total cfg;
        kv_cache_bytes_available = available weights (budget - fixed);
        kv_bytes_per_token_per_gpu = kv_per_gpu;
        kv_confidence = kv.confidence;
        estimated_kv_tokens = v.tokens;
        estimated_max_concurrency_p50 = v.c50;
        estimated_max_concurrency_p95 = v.c95;
        fits = v.fits;
        confidence = v.confidence;
        shortfall_bytes = v.shortfall;
      }

  -- nothing is the `ValueError` that no GPU raises
  unfoldable pub estimate_memory :
      ModelProfile
      → List GpuDevice
      → ℕ
      → KvEstimate
      → ℕ
      → TokenLengths
      → MemoryModelConfig
      → ℕ
      → Option Float
      → Option (MemoryEstimate F)
  unfolding compute_memory_fraction safety_reserve_bytes sharded_weight_bytes
  estimate_memory model [] tp kv context workload cfg pp forced = none
  estimate_memory model (g ∷ gs) tp kv context workload cfg pp forced = some (
      estimate_on (least g.total_memory_bytes (map (λ x. x.total_memory_bytes) gs))
        (least g.free_memory_bytes (map (λ x. x.free_memory_bytes) gs)) model tp kv context workload
        cfg pp forced)

  abbrev pub fitting : Option (MemoryEstimate F) → ℕ → Option (Option ℕ) → Option (Option ℕ)
  fitting none tp later = none
  fitting (some e) tp later = if e.fits then some (some tp) else later

  -- the first of the sizes that fits; nothing is an error of `estimate_memory`
  abbrev pub first_fit : (ℕ → Option (MemoryEstimate F)) → List ℕ → Option (Option ℕ)
  first_fit estimate [] = some none
  first_fit estimate (tp ∷ tps) =
      let later = first_fit estimate tps in fitting (estimate tp) tp later

  unfoldable pub minimum_tp_that_fits :
      ModelProfile
      → List GpuDevice
      → (ℕ → KvEstimate)
      → ℕ
      → TokenLengths
      → MemoryModelConfig
      → List ℕ
      → Option (Option ℕ)
  unfolding estimate_memory sort_by
  minimum_tp_that_fits model gpus kv_for_tp context workload cfg candidates =
      first_fit (λ tp. estimate_memory model gpus tp (kv_for_tp tp) context workload cfg 1 none)
        (sort_by leb candidates)
