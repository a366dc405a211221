-- ===== src/Examples/Candidates.antt =====
-- planner/candidates.py on a machine with two GPUs of 24 GiB.
use open_baseten_inference.Prelude.{
  some, map, ◌≡◌, refl, Bool, true, false, none, List, [], ◌∷◌, All, length,
}
use open_baseten_inference.Schemas.Benchmark.{Objective}
use open_baseten_inference.Schemas.Hardware.{HardwareSnapshot}
use open_baseten_inference.Schemas.Tuning.{CandidatePlan, EngineName}
use open_baseten_inference.Planner.Pruning.{dedupe}
use open_baseten_inference.Planner.Pruning.Unique.{Apart, is_seen, dedupe-Apart}
use open_baseten_inference.Planner.Candidates.{
  Answer, answer, refused, InferenceEngine, PlanConstraints, Planning,
}
use open_baseten_inference.Planner.Inputs.{Inputs}
use open_baseten_inference.Planner.Generation.{effective, generate_candidates}
use open_baseten_inference.Planner.Generation.Viability.{IsViable}
use open_baseten_inference.Planner.Generation.Viable.{generate_candidates-IsViable}
use open_baseten_inference.Planner.Groups.{Node, node_in, exhaustive, recurse, combinations, tidy}
use open_baseten_inference.Examples.Decimals.{decimals}
use open_baseten_inference.Examples.Memory.{card, cards, model, kv_of, chat, defaults}
use open_baseten_inference.Examples.Tuner.{candidate}

abbrev machine : HardwareSnapshot
machine = record { gpus = cards; topology = record { edges = []; available = true }; nodes = [] }

abbrev engine : InferenceEngine decimals
engine = record {
  engine_name = EngineName.vllm;
  default_max_num_seqs = 256;
  supports_expert_parallel = λ m. true;
  supports_dp_attention = λ m. false;
  supports_ray_backend = true;
  supports_pipeline_parallel = true;
  supports = λ m p. true;
}

abbrev free_choice : PlanConstraints decimals
free_choice = record {
  engine = none;
  tensor_parallel_size = none;
  replica_count = none;
  gpu_ids = none;
  context_length = none;
  max_concurrency = none;
  memory_headroom = none;
  memory_fraction = none;
  allow_context_override = false;
}

abbrev inputs : Inputs decimals
inputs = record {
  model = model;
  workload = chat;
  objective = Objective.throughput;
  engines = engine ∷ [];
  constraints = free_choice;
  memory_cfg = defaults;
  kv_for = kv_of;
  launch_settings = "";
}

abbrev no_order : Node → Node → Bool
no_order a b = false

abbrev found_of : Answer (Planning decimals) → Planning decimals
found_of (answer a) = a
found_of (refused e) = record { candidates = []; excluded = [] }

generate_candidates-IsViable_example :
    All
      (IsViable decimals (effective decimals inputs))
      (found_of (generate_candidates decimals no_order machine inputs)).candidates
unfolding generate_candidates node_in exhaustive recurse combinations tidy
generate_candidates-IsViable_example =
    generate_candidates-IsViable decimals no_order machine inputs
      (found_of (generate_candidates decimals no_order machine inputs)) refl

-- one GPU per replica, and both for one replica
two_candidates :
    length (found_of (generate_candidates decimals no_order machine inputs)).candidates ≡ 2
unfolding generate_candidates node_in exhaustive recurse combinations tidy
two_candidates = refl

-- two machines with one card each, too small for the model alone: one replica across both
abbrev pair : HardwareSnapshot
pair = record machine {
  gpus =
      record (card 0) { node_id = some "a"; free_memory_bytes = 17179869184 }
      ∷ record (card 1) { node_id = some "b"; free_memory_bytes = 17179869184 }
      ∷ [];
  nodes = (0 ∷ []) ∷ (1 ∷ []) ∷ [];
}

across_two :
    map
      (λ (p : CandidatePlan decimals). p.id)
      (found_of (generate_candidates decimals no_order pair inputs)).candidates
    ≡ "vllm-tp1-pp2-x1-ray" ∷ "vllm-tp2-x1-ray" ∷ []
unfolding generate_candidates node_in exhaustive recurse combinations tidy
across_two = refl

abbrev twice : List (CandidatePlan decimals)
twice = candidate "vllm-tp1-x1" 1 ∷ candidate "vllm-tp2-x1" 2 ∷ candidate "again" 1 ∷ []

dedupe-Apart_example :
    Apart decimals (dedupe decimals twice).0
    × All (λ p. is_seen decimals (dedupe decimals twice).0 p ≡ true) (dedupe decimals twice).1
dedupe-Apart_example = dedupe-Apart decimals twice
