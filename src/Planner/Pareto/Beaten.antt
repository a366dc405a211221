-- ===== src/Planner/Pareto/Beaten.antt =====
-- planner/scoring.py, `pareto_front`: above each point there is one that none dominates.
use mathlib.Core.List.{Memᴰ}
use open_baseten_inference.Prelude.{
  ◌≡◌, refl, ap, Bool, true, false, ◌&&◌, ◌||◌, List, [], ◌∷◌, map, arith, keep, any, All, All-map,
  All-mem, All-keep, All-keep_test, All-Memᴰ, All-keep_if, Floats, lt, first_top, first_top-IsTop,
  ◌⊎◌, inl, inr, Sorted, Bool-cases, keep-none,
}
use open_baseten_inference.Schemas.Benchmark.{ParetoPoint}
use open_baseten_inference.Planner.Pareto.{as_good, dominates}

any-none {ℓ} :
    {A : Type ℓ} (t : A → Bool) (xs : List A) → All (λ x. t x ≡ false) xs → any t xs ≡ false
any-none t [] h = refl
any-none t (x ∷ xs) h = ground (arith, any-none t xs)

pub any-all {ℓ} :
    {A : Type ℓ} (t : A → Bool) (xs : List A) → any t xs ≡ false → All (λ x. t x ≡ false) xs
any-all t [] h = tt
any-all t (x ∷ xs) h = (ground (arith, h), any-all t xs (ground (arith, h)))

-- either no element passes a test, or one does
pub any-cases {ℓ} :
    {A : Type ℓ} (t : A → Bool) (xs : List A)
    → (any t xs ≡ false) ⊎ ((any t xs ≡ true) × (x : A) × Memᴰ x xs × (t x ≡ true))
any-cases {A = A} t [] = inl refl
any-cases {A = A} t (x ∷ xs) = elim (Bool-cases (t x)) [
  | inl e ↦ inr (rw e refl, x, Memᴰ.head refl, e)
  | inr e ↦ rw e (later (any-cases t xs))
]
  where
    later :
        (any t xs ≡ false) ⊎ ((any t xs ≡ true) × (y : A) × Memᴰ y xs × (t y ≡ true))
        → (any t xs ≡ false) ⊎ ((any t xs ≡ true) × (y : A) × Memᴰ y (x ∷ xs) × (t y ≡ true))
    later (inl h) = inl h
    later (inr (h, y, m, e)) = inr (h, y, Memᴰ.tail m, e)

pub Sorted-map {ℓ} :
    {A : Type ℓ} (le le' : A → A → Bool) (f : (a b : A) → le a b ≡ true → le' a b ≡ true)
    (xs : List A)
    → Sorted le xs
    → Sorted le' xs
Sorted-map le le' f [] s = tt
Sorted-map le le' f (x ∷ xs) s =
    (All-map (λ y. le x y ≡ true) (λ y. le' x y ≡ true) (f x) xs s.0, Sorted-map le le' f xs s.1)

pub All-through_map {ℓ κ ℓ'} :
    {A : Type ℓ} {B : Type ℓ'} (P : B → Type κ) (f : A → B) (xs : List A)
    → All (λ x. P (f x)) xs
    → All P (map f xs)
All-through_map P f [] h = tt
All-through_map P f (x ∷ xs) h = (h.0, All-through_map P f xs h.1)

pub Mem-map {ℓ ℓ'} :
    {A : Type ℓ} {B : Type ℓ'} (f : A → B) {x : A} (xs : List A) → Memᴰ x xs → Memᴰ (f x) (map f xs)
Mem-map f _ (Memᴰ.head e) = Memᴰ.head (ap f e)
Mem-map f _ (Memᴰ.tail m) = Memᴰ.tail (Mem-map f _ m)

module _ (F : Floats) where
  open F use {Float, le, le_total, le_trans}

  -- more tokens per second, or as many and no higher latency
  abbrev beaten : ParetoPoint F → ParetoPoint F → Bool
  beaten a b =
      lt F a.tokens_per_second b.tokens_per_second
      || (le a.tokens_per_second b.tokens_per_second && le b.p95_ms a.p95_ms)

  beaten_total : (a b : ParetoPoint F) → (beaten a b ≡ true) ⊎ (beaten b a ≡ true)
  beaten_total a b =
      grind (arith, le_total a.tokens_per_second b.tokens_per_second, le_total a.p95_ms b.p95_ms)

  beaten_trans : (a b c : ParetoPoint F) → beaten a b ≡ true → beaten b c ≡ true → beaten a c ≡ true
  beaten_trans a b c = grind (
    arith,
    le_trans a.tokens_per_second b.tokens_per_second c.tokens_per_second,
    le_trans c.tokens_per_second a.tokens_per_second b.tokens_per_second,
    le_trans b.tokens_per_second c.tokens_per_second a.tokens_per_second,
    le_total a.tokens_per_second b.tokens_per_second,
    le_total b.tokens_per_second c.tokens_per_second,
    le_trans c.p95_ms b.p95_ms a.p95_ms,
  )

  as_good_self : (a : ParetoPoint F) → as_good F a a ≡ true
  as_good_self a =
      grind (arith, le_total a.tokens_per_second a.tokens_per_second, le_total a.p95_ms a.p95_ms)

  pub as_good_trans :
      (a b c : ParetoPoint F) → as_good F a b ≡ true → as_good F b c ≡ true → as_good F a c ≡ true
  as_good_trans a b c = grind (
    arith,
    le_trans c.tokens_per_second b.tokens_per_second a.tokens_per_second,
    le_trans a.p95_ms b.p95_ms c.p95_ms,
  )

  -- what is beaten by a point does not dominate it
  beaten-not_dominates :
      (q b : ParetoPoint F) → (as_good F q b ≡ true → beaten q b ≡ true) → dominates F q b ≡ false
  beaten-not_dominates q b h = elim (Bool-cases (as_good F q b)) [
    | inl e ↦ ground (arith, h e)
    | inr e ↦ ground arith
  ]

  abbrev pub Covers : List (ParetoPoint F) → ParetoPoint F → Type 0
  Covers points p =
      (q : ParetoPoint F) × Memᴰ q points
      × (as_good F q p ≡ true)
      × (any (λ r. dominates F r q) points ≡ false)

  -- the point that none beats, among those as good as a point
  pub point-Covers :
      (points : List (ParetoPoint F)) (p : ParetoPoint F) → Memᴰ p points → Covers points p
  point-Covers points p m = among (keep (λ q. as_good F q p) points) refl
    where
      among :
          (pool : List (ParetoPoint F)) → keep (λ q. as_good F q p) points ≡ pool → Covers points p
      among [] e =
          let none =
            All-mem (λ q. as_good F q p ≡ false) points (keep-none (λ q. as_good F q p) points e)
              m in
          absurd (cc (as_good_self p))
      among (x ∷ xs) e =
          let (found, above) = first_top-IsTop beaten beaten_total beaten_trans x xs in
          let d = first_top beaten x xs in
          let kept : Memᴰ d (keep (λ q. as_good F q p) points) = rw e found in
          let over : All (λ r. beaten r d ≡ true) (keep (λ q. as_good F q p) points) = rw e above in
          let good =
            All-mem (λ q. as_good F q p ≡ true) (keep (λ q. as_good F q p) points)
              (All-keep_test (λ q. as_good F q p) points) kept in
          (
            d,
            All-mem (λ q. Memᴰ q points) (keep (λ q. as_good F q p) points)
                (All-keep (λ q. Memᴰ q points) (λ q. as_good F q p) points (All-Memᴰ points)) kept,
            good,
            any-none (λ r. dominates F r d) points
                (All-map (λ r. as_good F r p ≡ true → beaten r d ≡ true)
                  (λ r. dominates F r d ≡ false)
                  (λ r h. beaten-not_dominates r d (λ g. h (as_good_trans r d p g good))) points
                  (All-keep_if (λ r. beaten r d ≡ true) (λ q. as_good F q p) points over)),
          )
