-- ===== src/Examples/Memory.antt =====
-- planner/memory.py for a model of 16 GB on GPUs of 24 GiB.
use open_baseten_inference.Prelude.{
  ℕ, ◌+◌, ◌*◌, ◌≤◌, max, ◌≡◌, refl, true, false, not, ◌||◌, none, some, List, [], ◌∷◌, leb, sort_by,
}
use open_baseten_inference.Schemas.Plan.{
  Confidence, KvEstimate, MemoryEstimate, ModelProfile, TokenLengths, AttentionKind, WeightSource,
  fixed_bytes, p95_sequence_tokens,
}
use open_baseten_inference.Schemas.Hardware.{GpuDevice}
use open_baseten_inference.Planner.Memory.{
  MemoryModelConfig, estimate_memory, estimate_on, compute_memory_fraction, sharded_weight_bytes,
  minimum_tp_that_fits, is_forced,
}
use open_baseten_inference.Planner.Memory.Fit.{
  estimate_memory-Fits, estimate_memory-shortfall, estimate_memory-concurrency,
}
use open_baseten_inference.Planner.Memory.Lacks.{wanted, lack}
use open_baseten_inference.Planner.Memory.Smallest.{IsSmallest, minimum_tp_that_fits-IsSmallest}
use open_baseten_inference.Examples.Decimals.{decimals}

abbrev pub card : ℕ → GpuDevice
card i = record {
  index = i;
  name = "A10";
  total_memory_bytes = 25769803776;
  free_memory_bytes = 25769803776;
  node_id = none;
}

abbrev pub cards : List GpuDevice
cards = card 0 ∷ card 1 ∷ []

abbrev pub model : ModelProfile
model = record {
  model_type = some "llama";
  is_moe = false;
  attention_kind = AttentionKind.gqa;
  hidden_size = some 4096;
  num_hidden_layers = some 32;
  num_attention_heads = some 32;
  num_key_value_heads = some 8;
  head_dim = some 128;
  max_position_embeddings = some 131072;
  sliding_window = none;
  num_experts = none;
  kv_lora_rank = none;
  qk_rope_head_dim = none;
  configured_dtype = some "bfloat16";
  weight_bytes = some 16060522496;
  weight_size_source = WeightSource.local_files;
}

abbrev pub kv_of : ℕ → KvEstimate
kv_of tp = record {
  bytes_per_token_total = some 131072;
  bytes_per_token_per_gpu = some 131072;
  confidence = Confidence.high;
}

abbrev pub chat : TokenLengths
chat = record {
  input_tokens_p50 = 512;
  input_tokens_p95 = 2048;
  output_tokens_p50 = 256;
  output_tokens_p95 = 768;
  max_context_tokens = 8192;
}

abbrev pub defaults : MemoryModelConfig decimals
defaults = record {
  headroom_fraction = 80000;
  min_headroom_bytes = 1073741824;
  engine_overhead_bytes = 1610612736;
  cuda_graph_bytes = 1073741824;
  comm_buffer_bytes_per_tp_rank = 268435456;
  activation_fraction = 25000;
  weight_shard_overhead = 10000;
  max_memory_fraction = 950000;
  min_memory_fraction = 300000;
  min_kv_sequences = 1;
}

abbrev estimate : MemoryEstimate decimals
estimate = estimate_on decimals 25769803776 25769803776 model 1 (kv_of 1) 8192 chat defaults 1 none

estimated :
    estimate_memory decimals model cards 1 (kv_of 1) 8192 chat defaults 1 none ≡ some estimate
unfolding estimate_memory
estimated = refl

estimate_memory-Fits_example :
    (fixed_bytes decimals estimate
        + wanted decimals defaults 8192 estimate.weights_bytes estimate.kv_bytes_per_token_per_gpu
      ≤ estimate.engine_budget_bytes)
    × ((not (is_forced decimals none)
          || leb estimate.engine_budget_bytes estimate.device_free_bytes)
        ≡ true)
unfolding compute_memory_fraction sharded_weight_bytes
estimate_memory-Fits_example =
    estimate_memory-Fits decimals model cards 1 (kv_of 1) 8192 chat defaults 1 none estimate
      estimated refl

estimate_memory-concurrency_example :
    fixed_bytes decimals estimate + 11 * max 1 (p95_sequence_tokens chat) * 131072
    ≤ estimate.engine_budget_bytes
unfolding compute_memory_fraction sharded_weight_bytes
estimate_memory-concurrency_example =
    estimate_memory-concurrency decimals model cards 1 (kv_of 1) 8192 chat defaults 1 none estimate
      131072 11 estimated refl refl

-- with a context of 131072 tokens the KV cache does not fit
abbrev long_estimate : MemoryEstimate decimals
long_estimate =
    estimate_on decimals 25769803776 25769803776 model 1 (kv_of 1) 131072 chat defaults 1 none

long_estimated :
    estimate_memory decimals model cards 1 (kv_of 1) 131072 chat defaults 1 none
    ≡ some long_estimate
unfolding estimate_memory
long_estimated = refl

estimate_memory-shortfall_example :
    let e = long_estimate in
    let need =
      fixed_bytes decimals e
      + wanted decimals defaults 131072 (some 16060522496) e.kv_bytes_per_token_per_gpu in
    (e.shortfall_bytes ≡ lack decimals none defaults need e)
    × (need ≤ e.engine_budget_bytes + e.shortfall_bytes)
unfolding sharded_weight_bytes
estimate_memory-shortfall_example =
    estimate_memory-shortfall decimals model cards 1 (kv_of 1) 131072 chat defaults 1 none
      long_estimate 16060522496 long_estimated refl

minimum_tp_that_fits-IsSmallest_example :
    IsSmallest decimals
      (λ tp. estimate_memory decimals model cards tp (kv_of tp) 65536 chat defaults 1 none)
      (4 ∷ 2 ∷ 1 ∷ [])
      (minimum_tp_that_fits decimals model cards kv_of 65536 chat defaults (4 ∷ 2 ∷ 1 ∷ []))
minimum_tp_that_fits-IsSmallest_example =
    minimum_tp_that_fits-IsSmallest decimals model cards kv_of 65536 chat defaults (4 ∷ 2 ∷ 1 ∷ [])

smallest_run :
    minimum_tp_that_fits decimals model cards kv_of 65536 chat defaults (4 ∷ 2 ∷ 1 ∷ [])
    ≡ some (some 2)
unfolding minimum_tp_that_fits estimate_memory compute_memory_fraction sharded_weight_bytes sort_by
smallest_run = refl
