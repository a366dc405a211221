-- ===== src/Planner/Generation/Viability.antt =====
-- planner/candidates.py: what makes a candidate viable, of the answers of the planner.
use mathlib.Core.List.{Memᴰ}
use open_baseten_inference.Prelude.{
  ◌≡◌, refl, subst, Bool, true, false, not, ◌&&◌, some, List, arith, any, All, All-append, Floats,
  ltb,
}
use open_baseten_inference.Schemas.Plan.{MemoryEstimate}
use open_baseten_inference.Schemas.Tuning.{CandidatePlan, EngineName, vllm, sglang, fake, engine_eq}
use open_baseten_inference.Planner.Pruning.{check_tp_divisibility}
use open_baseten_inference.Planner.Candidates.{
  Answer, answer, refused, and_with, InferenceEngine, Planning, joined,
}
use open_baseten_inference.Planner.Inputs.{Inputs}
use open_baseten_inference.Planner.Generation.Room.{has_room}

pub any-mem {ℓ} :
    {A : Type ℓ} (t : A → Bool) (x : A) (xs : List A) → Memᴰ x xs → t x ≡ true → any t xs ≡ true
any-mem t x _ (Memᴰ.head h) e = ground (arith, subst (λ z. t z ≡ true) h e)
any-mem t x _ (Memᴰ.tail m) e = ground (arith, any-mem t x _ m e)

module _ (F : Floats) where
  -- a candidate: its estimate has room, an engine of its name supports it, and its size divides the
  -- attention heads where it has one pipeline stage
  abbrev pub IsViable : Inputs F → CandidatePlan F → Type 0
  IsViable i p =
      ((e : MemoryEstimate F) × (p.estimated_memory ≡ some e)
        × (has_room F i.memory_cfg p.context_length e ≡ true))
      × (any (λ (n : InferenceEngine F). engine_eq n.engine_name p.engine && n.supports i.model p)
            i.engines
          ≡ true)
      × ((ltb p.pipeline_parallel_size 2 && check_tp_divisibility i.model p.tensor_parallel_size)
          ≡ false)

  pub engine_eq_refl : (n : EngineName) → engine_eq n n ≡ true
  engine_eq_refl vllm = refl
  engine_eq_refl sglang = refl
  engine_eq_refl fake = refl

  abbrev pub AllIn : (CandidatePlan F → Type 0) → Answer (Planning F) → Type 0
  AllIn P (answer a) = All P a.candidates
  AllIn P (refused e) = Unit

  pub AllIn-and_with :
      {A : Type 0} (P : CandidatePlan F → Type 0) (x : Answer A) (f : A → Answer (Planning F))
      → ((a : A) → AllIn P (f a))
      → AllIn P (and_with x f)
  AllIn-and_with P (answer a) f h = h a
  AllIn-and_with P (refused e) f h = tt

  pub appended-AllIn :
      (P : CandidatePlan F → Type 0) (x y : Answer (Planning F))
      → AllIn P x
      → AllIn P y
      → AllIn P (and_with x (λ a. and_with y (λ b. answer (joined F a b))))
  appended-AllIn P (answer a) (answer b) h k = All-append P a.candidates b.candidates h k
  appended-AllIn P (answer a) (refused e) h k = tt
  appended-AllIn P (refused e) y h k = tt

  -- an engine of the inputs that supports a plan of its name
  pub supported :
      (i : Inputs F) (engine : InferenceEngine F) (p : CandidatePlan F)
      → Memᴰ engine i.engines
      → engine.engine_name ≡ p.engine
      → not (engine.supports i.model p) ≡ false
      → any
          (λ (n : InferenceEngine F). engine_eq n.engine_name p.engine && n.supports i.model p)
          i.engines
        ≡ true
  supported i engine p m same h =
      any-mem (λ (n : InferenceEngine F). engine_eq n.engine_name p.engine && n.supports i.model p)
        engine i.engines m
        (both (engine_eq engine.engine_name p.engine) (engine.supports i.model p)
          (subst (λ n. engine_eq engine.engine_name n ≡ true) same
            (engine_eq_refl engine.engine_name))
          h)
    where
      both : (a b : Bool) → a ≡ true → not b ≡ false → (a && b) ≡ true
      both a b x y = ground arith
