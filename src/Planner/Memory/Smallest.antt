-- ===== src/Planner/Memory/Smallest.antt =====
-- planner/memory.py, `minimum_tp_that_fits`: which size it returns.
use mathlib.Core.List.{Memᴰ}
use open_baseten_inference.Prelude.{
  ℕ, ◌≡◌, refl, ◌⊎◌, Bool, true, false, not, ◌||◌, Option, none, some, List, [], ◌∷◌, leb, arith,
  All, All-map, All-mem, All-Memᴰ, Floats, sort_by, sort_by-All, sort_by-back, sort_by-Sorted,
  Sorted, if_cases,
}
use open_baseten_inference.Schemas.Plan.{KvEstimate, MemoryEstimate, ModelProfile, TokenLengths}
use open_baseten_inference.Schemas.Hardware.{GpuDevice}
use open_baseten_inference.Planner.Memory.{
  MemoryModelConfig, estimate_memory, first_fit, fitting, minimum_tp_that_fits,
}

module _ (F : Floats) where
  -- an estimate that says the replica fits
  abbrev pub fits_in : Option (MemoryEstimate F) → Bool
  fits_in none = false
  fits_in (some e) = e.fits

  -- An answer to the search for the smallest size that fits: an error, only where an estimate is one;
  -- no size, only where none fits; else a candidate that fits, no smaller candidate fitting.
  abbrev pub IsSmallest : (ℕ → Option (MemoryEstimate F)) → List ℕ → Option (Option ℕ) → Type 0
  IsSmallest estimate candidates none = (tp : ℕ) × Memᴰ tp candidates × (estimate tp ≡ none)
  IsSmallest estimate candidates (some none) = All (λ tp. fits_in (estimate tp) ≡ false) candidates
  IsSmallest estimate candidates (some (some tp)) =
      Memᴰ tp candidates
      × (fits_in (estimate tp) ≡ true)
      × All (λ n. (leb tp n || not (fits_in (estimate n))) ≡ true) candidates

  leb_self : (a : ℕ) → leb a a ≡ true
  leb_self a = ground arith

  leb_total : (a b : ℕ) → (leb a b ≡ true) ⊎ (leb b a ≡ true)
  leb_total a b = ground arith

  leb_trans : (a b c : ℕ) → leb a b ≡ true → leb b c ≡ true → leb a c ≡ true
  leb_trans a b c = ground arith

  later-IsSmallest :
      (estimate : ℕ → Option (MemoryEstimate F)) (tp : ℕ) (tps : List ℕ) (o : Option (Option ℕ))
      → fits_in (estimate tp) ≡ false
      → IsSmallest estimate tps o
      → IsSmallest estimate (tp ∷ tps) o
  later-IsSmallest estimate tp tps none e (n, m, h) = (n, Memᴰ.tail m, h)
  later-IsSmallest estimate tp tps (some none) e h = (e, h)
  later-IsSmallest estimate tp tps (some (some n)) e (m, f, h) = (Memᴰ.tail m, f, (ground arith, h))

  first_fit-IsSmallest :
      (estimate : ℕ → Option (MemoryEstimate F)) (tps : List ℕ)
      → Sorted leb tps
      → IsSmallest estimate tps (first_fit F estimate tps)
  first_fit-IsSmallest estimate [] s = tt
  first_fit-IsSmallest estimate (tp ∷ tps) s =
      here (estimate tp) refl (first_fit-IsSmallest estimate tps s.1)
    where
      here :
          (o : Option (MemoryEstimate F))
          → estimate tp ≡ o
          → IsSmallest estimate tps (first_fit F estimate tps)
          → IsSmallest estimate (tp ∷ tps) (fitting F o tp (first_fit F estimate tps))
      here none e later = (tp, Memᴰ.head refl, e)
      here (some x) e later =
          if_cases (IsSmallest estimate (tp ∷ tps)) x.fits {x = some (some tp)}
            {y = first_fit F estimate tps}
            (λ h. (
              Memᴰ.head refl,
              rw e h,
              (
                rw (leb_self tp),
                All-map (λ n. leb tp n ≡ true)
                    (λ n. (leb tp n || not (fits_in (estimate n))) ≡ true) (λ n k. rw k) tps s.0,
              ),
            ))
            (λ h. later-IsSmallest estimate tp tps (first_fit F estimate tps) (rw e h) later)

  mem_sorted : (tps : List ℕ) {n : ℕ} → Memᴰ n (sort_by leb tps) → Memᴰ n tps
  mem_sorted tps m =
      All-mem (λ n. Memᴰ n tps) (sort_by leb tps)
        (sort_by-All (λ n. Memᴰ n tps) leb tps (All-Memᴰ tps)) m

  unsorted :
      (estimate : ℕ → Option (MemoryEstimate F)) (tps : List ℕ) (o : Option (Option ℕ))
      → IsSmallest estimate (sort_by leb tps) o
      → IsSmallest estimate tps o
  unsorted estimate tps none (n, m, h) = (n, mem_sorted tps m, h)
  unsorted estimate tps (some none) h = sort_by-back (λ n. fits_in (estimate n) ≡ false) leb tps h
  unsorted estimate tps (some (some tp)) (m, f, h) = (
    mem_sorted tps m,
    f,
    sort_by-back (λ n. (leb tp n || not (fits_in (estimate n))) ≡ true) leb tps h,
  )

  -- `minimum_tp_that_fits` raises an error only where an estimate does; where it finds no size, none
  -- of the candidates fits; else it returns a candidate whose estimate fits, and no smaller candidate
  -- has an estimate that fits.
  pub minimum_tp_that_fits-IsSmallest :
      (model : ModelProfile) (gpus : List GpuDevice) (kv_for_tp : ℕ → KvEstimate) (context : ℕ)
      (workload : TokenLengths) (cfg : MemoryModelConfig F) (candidates : List ℕ)
      → IsSmallest
          (λ tp. estimate_memory F model gpus tp (kv_for_tp tp) context workload cfg 1 none)
          candidates
          (minimum_tp_that_fits F model gpus kv_for_tp context workload cfg candidates)
  unfolding minimum_tp_that_fits
  minimum_tp_that_fits-IsSmallest model gpus kv_for_tp context workload cfg candidates =
      let estimate =
        λ (tp : ℕ). estimate_memory F model gpus tp (kv_for_tp tp) context workload cfg 1 none in
      unsorted estimate candidates (first_fit F estimate (sort_by leb candidates)) (
        first_fit-IsSmallest estimate (sort_by leb candidates)
          (sort_by-Sorted leb leb_total leb_trans candidates))
