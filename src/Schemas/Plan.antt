-- ===== src/Schemas/Plan.antt =====
-- src/servepilot/schemas/plan.py and the parts of schemas/model.py and schemas/workload.py that the
-- memory model reads. Texts, warnings and raw configurations are left out.
use open_baseten_inference.Prelude.{
  ℕ, zero, suc, ◌+◌, String, Bool, true, false, Option, none, some, Floats,
}

pub data Confidence : Type 0 where
  high medium low unknown : Confidence

pub record KvEstimate : Type 0 where
  pub bytes_per_token_total : Option ℕ
  pub bytes_per_token_per_gpu : Option ℕ
  pub confidence : Confidence

abbrev pub or_zero : Option ℕ → ℕ
or_zero none = 0
or_zero (some n) = n

module _ (F : Floats) where
  open F use {Float}

  pub record MemoryEstimate : Type 0 where
    pub device_total_bytes : ℕ
    pub device_free_bytes : ℕ
    pub memory_fraction : Float
    pub engine_budget_bytes : ℕ
    pub weights_bytes : Option ℕ
    pub activations_bytes : ℕ
    pub cuda_graph_bytes : ℕ
    pub communication_bytes : ℕ
    pub engine_overhead_bytes : ℕ
    pub safety_reserve_bytes : ℕ
    pub kv_cache_bytes_available : Option ℕ
    pub kv_bytes_per_token_per_gpu : Option ℕ
    pub kv_confidence : Confidence
    pub estimated_kv_tokens : Option ℕ
    pub estimated_max_concurrency_p50 : Option ℕ
    pub estimated_max_concurrency_p95 : Option ℕ
    pub fits : Bool
    pub confidence : Confidence
    pub shortfall_bytes : ℕ

  -- the property `fixed_bytes`
  abbrev pub fixed_bytes : MemoryEstimate → ℕ
  fixed_bytes e =
      or_zero e.weights_bytes
      + e.activations_bytes
      + e.cuda_graph_bytes
      + e.communication_bytes
      + e.engine_overhead_bytes

pub data AttentionKind : Type 0 where
  mha gqa mqa mla unknown_kind : AttentionKind

pub data WeightSource : Type 0 where
  local_files huggingface_metadata safetensors_metadata estimated unknown_source : WeightSource

pub record ModelProfile : Type 0 where
  pub model_type : Option String
  pub is_moe : Bool
  pub attention_kind : AttentionKind
  pub hidden_size : Option ℕ
  pub num_hidden_layers : Option ℕ
  pub num_attention_heads : Option ℕ
  pub num_key_value_heads : Option ℕ
  pub head_dim : Option ℕ
  pub max_position_embeddings : Option ℕ
  pub sliding_window : Option ℕ
  pub num_experts : Option ℕ
  pub kv_lora_rank : Option ℕ
  pub qk_rope_head_dim : Option ℕ
  pub configured_dtype : Option String
  pub weight_bytes : Option ℕ
  pub weight_size_source : WeightSource

-- the property `weight_bytes_is_exact`
abbrev pub weight_bytes_is_exact : WeightSource → Bool
weight_bytes_is_exact local_files = true
weight_bytes_is_exact huggingface_metadata = true
weight_bytes_is_exact _ = false

-- Python's `a or b` on optional numbers
abbrev pub or_number : Option ℕ → Option ℕ → Option ℕ
or_number none b = b
or_number (some zero) b = b
or_number (some (suc n)) b = some (suc n)

abbrev pub effective_kv_heads : ModelProfile → Option ℕ
effective_kv_heads m = or_number m.num_key_value_heads m.num_attention_heads

pub record TokenLengths : Type 0 where
  pub input_tokens_p50 : ℕ
  pub input_tokens_p95 : ℕ
  pub output_tokens_p50 : ℕ
  pub output_tokens_p95 : ℕ
  pub max_context_tokens : ℕ

abbrev pub p50_sequence_tokens : TokenLengths → ℕ
p50_sequence_tokens w = w.input_tokens_p50 + w.output_tokens_p50

abbrev pub p95_sequence_tokens : TokenLengths → ℕ
p95_sequence_tokens w = w.input_tokens_p95 + w.output_tokens_p95
