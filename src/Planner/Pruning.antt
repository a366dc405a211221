-- ===== src/Planner/Pruning.antt =====
-- src/servepilot/planner/pruning.py. A reason is that there is one: its text is left out.
pub mod Unique
use open_baseten_inference.Prelude.{
  ℕ, zero, suc, ◌+◌, ◌%◌, Bool, true, false, not, ◌&&◌, Option, none, some, List, [], ◌∷◌, ◌++◌,
  ltb, leb, ◌==◌, if◌then◌else◌, keep, any, Floats,
}
use open_baseten_inference.Schemas.Plan.{ModelProfile, MemoryEstimate}
use open_baseten_inference.Schemas.Tuning.{CandidatePlan, same_key}

-- `range(1, n + 1)`
abbrev pub up_to : ℕ → List ℕ
up_to zero = []
up_to (suc n) = up_to n ++ suc n ∷ []

unfoldable pub divisors : ℕ → List ℕ
divisors n = keep (λ d. n % d == 0) (up_to n)

abbrev divides : ℕ → Option ℕ → Bool
divides k none = true
divides k (some n) = n % k == 0

-- whether `check_tp_divisibility` has a reason
abbrev pub check_tp_divisibility : ModelProfile → ℕ → Bool
check_tp_divisibility model tp = not (divides tp model.num_attention_heads)

abbrev pub check_ep_divisibility : ModelProfile → ℕ → Bool
check_ep_divisibility model ep = not (divides ep model.num_experts)

abbrev above : ℕ → Option ℕ → Bool
above context none = false
above context (some limit) = ltb limit context

abbrev pub check_context_length : ModelProfile → ℕ → Bool → Bool
check_context_length model context allow_override =
    above context model.max_position_embeddings && not allow_override

module _ (F : Floats) where
  -- with the tolerance 0 that the planner uses
  abbrev pub check_memory : MemoryEstimate F → Bool
  check_memory e = not e.fits && not (e.shortfall_bytes == 0)

  -- the plans that are kept, and those whose key was seen: over the plans kept so far, the latest first
  abbrev pub dedupe_from :
      List (CandidatePlan F)
      → List (CandidatePlan F)
      → List (CandidatePlan F) × List (CandidatePlan F)
  dedupe_from seen [] = ([], [])
  dedupe_from seen (p ∷ ps) =
      let again = any (λ q. same_key F q p) seen in
      let (unique, dupes) = dedupe_from (if again then seen else p ∷ seen) ps in
      if again then (unique, p ∷ dupes) else (p ∷ unique, dupes)

  unfoldable pub dedupe : List (CandidatePlan F) → List (CandidatePlan F) × List (CandidatePlan F)
  unfolding same_key
  dedupe plans = dedupe_from [] plans
