-- ===== src/Planner/Inputs.antt =====
-- src/servepilot/planner/candidates.py: what the candidates of a planning share.
use open_baseten_inference.Prelude.{
  ℕ, String, Bool, true, Option, none, some, List, [], ◌∷◌, ◌==◌, if◌then◌else◌, Floats,
}
use open_baseten_inference.Schemas.Benchmark.{Objective}
use open_baseten_inference.Schemas.Hardware.{GpuDevice}
use open_baseten_inference.Schemas.Plan.{ModelProfile, KvEstimate, TokenLengths}
use open_baseten_inference.Schemas.Tuning.{EngineName, engine_eq}
use open_baseten_inference.Planner.Memory.{MemoryModelConfig}
use open_baseten_inference.Planner.Candidates.{PlanConstraints, InferenceEngine}

-- `snapshot.gpu(i)`, a `KeyError` where there is none
abbrev find_gpu : List GpuDevice → ℕ → Option GpuDevice
find_gpu [] i = none
find_gpu (g ∷ gs) i = let rest = find_gpu gs i in if g.index == i then some g else rest

abbrev with_gpu : Option GpuDevice → Option (List GpuDevice) → Option (List GpuDevice)
with_gpu (some g) (some gs) = some (g ∷ gs)
with_gpu _ _ = none

abbrev pub gpus_at : List GpuDevice → List ℕ → Option (List GpuDevice)
gpus_at gs [] = some []
gpus_at gs (i ∷ is) = with_gpu (find_gpu gs i) (gpus_at gs is)

abbrev pub chosen_engine : Option EngineName → EngineName → Bool
chosen_engine none e = true
chosen_engine (some n) e = engine_eq e n

module _ (F : Floats) where
  -- what all candidates of a planning share; `launch_settings` is the rest of a plan's dump
  pub record Inputs : Type 0 where
    pub model : ModelProfile
    pub workload : TokenLengths
    pub objective : Objective
    pub engines : List (InferenceEngine F)
    pub constraints : PlanConstraints F
    pub memory_cfg : MemoryModelConfig F
    pub kv_for : ℕ → KvEstimate
    pub launch_settings : String
