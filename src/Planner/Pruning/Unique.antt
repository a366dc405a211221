-- ===== src/Planner/Pruning/Unique.antt =====
-- planner/pruning.py, `dedupe`: what is kept and what is set aside.
use open_baseten_inference.Prelude.{
  ◌≡◌, refl, Bool, true, false, ◌||◌, List, [], ◌∷◌, arith, if◌then◌else◌, any, All, All-map,
  Floats,
}
use open_baseten_inference.Schemas.Tuning.{CandidatePlan, same_key}
use open_baseten_inference.Planner.Pruning.{dedupe_from, dedupe}

module _ (F : Floats) where
  abbrev pub is_seen : List (CandidatePlan F) → CandidatePlan F → Bool
  is_seen seen p = any (λ q. same_key F q p) seen

  -- no plan has the key of an earlier one
  abbrev pub Apart : List (CandidatePlan F) → Type 0
  Apart [] = Unit
  Apart (p ∷ ps) = All (λ q. same_key F p q ≡ false) ps × Apart ps

  -- the kept plans are apart and have no seen key; the others have a key that was seen or is kept
  abbrev IsSplit : List (CandidatePlan F) → List (CandidatePlan F) × List (CandidatePlan F) → Type 0
  IsSplit seen (unique, dupes) =
      All (λ p. is_seen seen p ≡ false) unique
      × Apart unique
      × All (λ p. (is_seen seen p || is_seen unique p) ≡ true) dupes

  kept-IsSplit :
      (seen : List (CandidatePlan F)) (p : CandidatePlan F)
      (d : List (CandidatePlan F) × List (CandidatePlan F))
      → is_seen seen p ≡ false
      → IsSplit (p ∷ seen) d
      → IsSplit seen (p ∷ d.0, d.1)
  kept-IsSplit seen p (us, ds) e (fresh, apart, rest) = (
    (
      e,
      All-map (λ q. is_seen (p ∷ seen) q ≡ false) (λ q. is_seen seen q ≡ false)
          (λ q h. or_right (same_key F p q) (is_seen seen q) h) us fresh,
    ),
    (
      All-map (λ q. is_seen (p ∷ seen) q ≡ false) (λ q. same_key F p q ≡ false)
          (λ q h. or_left (same_key F p q) (is_seen seen q) h) us fresh,
      apart,
    ),
    All-map (λ q. (is_seen (p ∷ seen) q || is_seen us q) ≡ true)
        (λ q. (is_seen seen q || is_seen (p ∷ us) q) ≡ true)
        (λ q h. or_move (same_key F p q) (is_seen seen q) (is_seen us q) h) ds rest,
  )
    where
      or_left : (a b : Bool) → (a || b) ≡ false → a ≡ false
      or_left a b h = ground arith

      or_right : (a b : Bool) → (a || b) ≡ false → b ≡ false
      or_right a b h = ground arith

      or_move : (a b c : Bool) → ((a || b) || c) ≡ true → (b || (a || c)) ≡ true
      or_move a b c h = ground arith

  dedupe_from-IsSplit : (seen ps : List (CandidatePlan F)) → IsSplit seen (dedupe_from F seen ps)
  dedupe_from-IsSplit seen [] = (tt, tt, tt)
  dedupe_from-IsSplit seen (p ∷ ps) =
      one (is_seen seen p) refl (λ xs. dedupe_from F xs ps) (λ xs. dedupe_from-IsSplit xs ps)
    where
      one :
          (again : Bool)
          → is_seen seen p ≡ again
          → (rest : List (CandidatePlan F) → List (CandidatePlan F) × List (CandidatePlan F))
          → ((xs : List (CandidatePlan F)) → IsSplit xs (rest xs))
          → IsSplit seen (
              let r = rest (if again then seen else p ∷ seen) in
              if again then (r.0, p ∷ r.1) else (p ∷ r.0, r.1))
      one true e rest h = let (fresh, apart, others) = h seen in (fresh, apart, (rw e refl, others))
      one false e rest h = kept-IsSplit seen p (rest (p ∷ seen)) e (h (p ∷ seen))

  -- `dedupe` keeps plans of which no two have the same key, and each plan that it sets aside has the
  -- key of a plan that it keeps.
  pub dedupe-Apart :
      (ps : List (CandidatePlan F))
      → Apart (dedupe F ps).0 × All (λ p. is_seen (dedupe F ps).0 p ≡ true) (dedupe F ps).1
  unfolding dedupe
  dedupe-Apart ps = let s = dedupe_from-IsSplit [] ps in (s.1, s.2)
