-- ===== src/Planner/Generation/Room.antt =====
-- planner/candidates.py, `check_memory`: the memory of a candidate that has no reason against it.
use open_baseten_inference.Prelude.{
  ℕ, ◌+◌, ◌≤◌, ◌≡◌, refl, subst, inl, inr, Bool, true, false, not, ◌&&◌, ◌||◌, Option, none, some,
  List, leb, ◌==◌, arith, Bool-cases, Floats,
}
use open_baseten_inference.Schemas.Hardware.{GpuDevice}
use open_baseten_inference.Schemas.Plan.{MemoryEstimate, fixed_bytes}
use open_baseten_inference.Planner.Memory.{MemoryModelConfig, estimate_memory}
use open_baseten_inference.Planner.Memory.Fit.{estimate_memory-Fits, estimate_memory-shortfall}
use open_baseten_inference.Planner.Memory.Lacks.{wanted}
use open_baseten_inference.Planner.Pruning.{check_memory}
use open_baseten_inference.Planner.Inputs.{Inputs}

leb_of : (a b : ℕ) → a ≤ b → leb a b ≡ true
leb_of a b h = ground arith

no_shortfall : (fits : Bool) (s : ℕ) → fits ≡ false → (not fits && not (s == 0)) ≡ false → s ≡ 0
no_shortfall fits s n h = ground arith

enough : (a b s : ℕ) → a ≤ b + s → s ≡ 0 → a ≤ b
enough a b s h e = omega arith

module _ (F : Floats) where
  abbrev is_unknown : Option ℕ → Bool
  is_unknown none = true
  is_unknown (some w) = false

  -- whether the budget holds the weights, the overheads and the memory wanted for the KV cache, where
  -- the weights are known
  abbrev pub has_room : MemoryModelConfig F → ℕ → MemoryEstimate F → Bool
  has_room cfg context e =
      is_unknown e.weights_bytes
      || leb (fixed_bytes F e + wanted F cfg context e.weights_bytes e.kv_bytes_per_token_per_gpu)
          e.engine_budget_bytes

  -- an estimate for which `check_memory` has no reason has room
  pub no_reason-has_room :
      (i : Inputs F) (context tp pp : ℕ) (gpus : List GpuDevice) (e : MemoryEstimate F)
      → estimate_memory F i.model gpus tp
          (i.kv_for tp)
          context
          i.workload
          i.memory_cfg
          pp
          (i.constraints).memory_fraction
        ≡ some e
      → check_memory F e ≡ false
      → has_room i.memory_cfg context e ≡ true
  no_reason-has_room i context tp pp gpus e h c = known e.weights_bytes refl
    where
      known :
          (w : Option ℕ)
          → e.weights_bytes ≡ w
          → (is_unknown w
              || leb
                  (fixed_bytes F e + wanted F i.memory_cfg context w e.kv_bytes_per_token_per_gpu)
                  e.engine_budget_bytes)
            ≡ true
      known none k = refl
      known (some w) k =
          let short =
            estimate_memory-shortfall F i.model gpus tp (i.kv_for tp) context i.workload
              i.memory_cfg pp (i.constraints).memory_fraction e w h k in
          let fit =
            estimate_memory-Fits F i.model gpus tp (i.kv_for tp) context i.workload i.memory_cfg pp
              (i.constraints).memory_fraction e h in
          elim (Bool-cases e.fits) [
            | inl y ↦ leb_of _ e.engine_budget_bytes (
                subst
                  (λ v.
                    fixed_bytes F e + wanted F i.memory_cfg context v e.kv_bytes_per_token_per_gpu
                    ≤ e.engine_budget_bytes)
                  k (fit y).0)
            | inr n ↦ leb_of _ e.engine_budget_bytes (
                enough _ e.engine_budget_bytes e.shortfall_bytes short.1
                  (no_shortfall e.fits e.shortfall_bytes n c))
          ]
