-- ===== src/Benchmark/Points/Visits.antt =====
-- benchmark/tuner.py, `_sweep_points`: which concurrencies a sweep visits.
use native.Mathlib.Nat.{mul-le-mul_left}
use open_baseten_inference.Prelude.{
  ℕ, zero, suc, ◌+◌, ◌*◌, ◌≤◌, ◌<◌, ◌≡◌, refl, ap, ◌∙◌, Bool, true, false, List, [], ◌∷◌, ◌++◌,
  ◌||◌, ltb, leb, ◌==◌, if◌then◌else◌, if_intro, if_cases, arith, All, All-append, All-map, mem_nat,
}
use open_baseten_inference.Schemas.Hardware.{sorted_set, insert_index}
use open_baseten_inference.Schemas.Hardware.Pairs.{
  AscendingFrom, sorted_set-AscendingFrom, mem_nat-sorted_set,
}
use open_baseten_inference.Benchmark.Points.{geometric, short_of, sweep_points}

doubles : (c growth : ℕ) → 1 ≤ c → 2 ≤ growth → c + 1 ≤ c * growth
doubles c growth h g = omega (arith, mul-le-mul_left c g)

-- two fuels above the distance to the upper bound
enough_fuel :
    (fuel more growth upper c : ℕ)
    → 1 ≤ c
    → 2 ≤ growth
    → upper < c + fuel
    → upper < c + more
    → geometric more growth upper c ≡ geometric fuel growth upper c
unfolding geometric
enough_fuel zero zero growth upper c h g e f = refl
enough_fuel zero (suc more) growth upper c h g e f = ground arith
enough_fuel (suc fuel) zero growth upper c h g e f = ground arith
enough_fuel (suc fuel) (suc more) growth upper c h g e f =
    ap (λ (rest : List ℕ). if leb c upper then c ∷ rest else [])
      (enough_fuel fuel more growth upper (c * growth) (omega (arith, doubles c growth h g)) g
        (omega (arith, doubles c growth h g)) (omega (arith, doubles c growth h g)))

-- any fuel above the upper bound gives the points that the least such fuel gives
geometric_ends :
    (fuel growth upper c : ℕ)
    → 1 ≤ c
    → 2 ≤ growth
    → upper < fuel
    → geometric fuel growth upper c ≡ geometric (suc upper) growth upper c
geometric_ends fuel growth upper c h g e =
    enough_fuel (suc upper) fuel growth upper c h g (omega arith) (omega arith)

geometric-All_le : (fuel growth upper c : ℕ) → All (λ x. x ≤ upper) (geometric fuel growth upper c)
unfolding geometric
geometric-All_le zero growth upper c = tt
geometric-All_le (suc fuel) growth upper c =
    if_cases (λ xs. All (λ x. x ≤ upper) xs) (leb c upper)
      {x = c ∷ geometric fuel growth upper (c * growth)} {y = []}
      (λ e. (ground arith, geometric-All_le fuel growth upper (c * growth))) (λ e. tt)

-- the last of the points, put there where it is missing, is the upper bound
last_upper :
    (upper : ℕ) (points : List ℕ)
    → All (λ x. x ≤ upper) points
    → mem_nat upper (if short_of upper points then points ++ upper ∷ [] else points) ≡ true
last_upper upper [] h = ground arith
last_upper upper (c ∷ []) h = ground arith
last_upper upper (c ∷ d ∷ cs) h = one (short_of upper (d ∷ cs)) (last_upper upper (d ∷ cs) h.1)
  where
    one :
        (b : Bool)
        → mem_nat upper (if b then (d ∷ cs) ++ upper ∷ [] else d ∷ cs) ≡ true
        → mem_nat upper (if b then (c ∷ d ∷ cs) ++ upper ∷ [] else c ∷ d ∷ cs) ≡ true
    one true k = ground (arith, k)
    one false k = ground (arith, k)

All-insert_index {κ} :
    (P : ℕ → Type κ) (x : ℕ) (xs : List ℕ) → P x → All P xs → All P (insert_index x xs)
All-insert_index P x [] p h = (p, tt)
All-insert_index P x (y ∷ ys) p h =
    if_intro (All P) (ltb x y) {x = x ∷ y ∷ ys}
      {y = if x == y then y ∷ ys else y ∷ insert_index x ys} (p, h)
      (if_intro (All P) (x == y) {x = y ∷ ys} {y = y ∷ insert_index x ys} h
        (h.0, All-insert_index P x ys p h.1))

All-sorted_set {κ} : (P : ℕ → Type κ) (xs : List ℕ) → All P xs → All P (sorted_set xs)
unfolding sorted_set
All-sorted_set P [] h = tt
All-sorted_set P (x ∷ xs) h = All-insert_index P x (sorted_set xs) h.0 (All-sorted_set P xs h.1)

-- with enough fuel, the loop visits where it starts, if that is within the bound
geometric-mem :
    (fuel growth upper c : ℕ)
    → upper < c + fuel
    → (ltb upper c || mem_nat c (geometric fuel growth upper c)) ≡ true
unfolding geometric
geometric-mem zero growth upper c h = ground arith
geometric-mem (suc fuel) growth upper c h = ground arith

-- a point's multiple is above the bound or a point too
abbrev pub IsClosed : ℕ → ℕ → List ℕ → List ℕ → Type 0
IsClosed growth upper all = All (λ c. (ltb upper (c * growth) || mem_nat (c * growth) all) ≡ true)

IsClosed-more :
    (growth upper : ℕ) (all more xs : List ℕ)
    → ((x : ℕ) → mem_nat x all ≡ true → mem_nat x more ≡ true)
    → IsClosed growth upper all xs
    → IsClosed growth upper more xs
IsClosed-more growth upper all more xs f h =
    All-map (λ c. (ltb upper (c * growth) || mem_nat (c * growth) all) ≡ true)
      (λ c. (ltb upper (c * growth) || mem_nat (c * growth) more) ≡ true)
      (λ c e. ground (arith, f (c * growth))) xs h

geometric-IsClosed :
    (fuel growth upper c : ℕ)
    → 1 ≤ c
    → 2 ≤ growth
    → upper < c + fuel
    → IsClosed growth upper (geometric fuel growth upper c) (geometric fuel growth upper c)
unfolding geometric
geometric-IsClosed zero growth upper c h g e = tt
geometric-IsClosed (suc fuel) growth upper c h g e =
    let more = doubles c growth h g in
    let rest = geometric fuel growth upper (c * growth) in
    if_cases (λ xs. IsClosed growth upper xs xs) (leb c upper) {x = c ∷ rest} {y = []}
      (λ within. (
        ground (arith, geometric-mem fuel growth upper (c * growth) (omega (arith, more))),
        IsClosed-more growth upper rest (c ∷ rest) rest (λ x m. ground (arith, m))
            (geometric-IsClosed fuel growth upper (c * growth) (omega (arith, more)) g
              (omega (arith, more))),
      ))
      (λ above. tt)

mem_nat-append : (x : ℕ) (xs ys : List ℕ) → mem_nat x (xs ++ ys) ≡ (mem_nat x xs || mem_nat x ys)
mem_nat-append x [] ys = refl
mem_nat-append x (y ∷ xs) ys = ground (arith, mem_nat-append x xs ys)

upper-IsClosed :
    (growth upper : ℕ) (points : List ℕ)
    → 2 ≤ growth
    → IsClosed growth upper points points
    → IsClosed growth upper (points ++ upper ∷ []) (points ++ upper ∷ [])
upper-IsClosed growth upper points g h =
    All-append (λ c. (ltb upper (c * growth) || mem_nat (c * growth) (points ++ upper ∷ [])) ≡ true)
      points (upper ∷ [])
      (IsClosed-more growth upper points (points ++ upper ∷ []) points
        (λ x m. ground (arith, mem_nat-append x points (upper ∷ []))) h)
      (at_upper upper, tt)
  where
    at_upper : (u : ℕ) → (ltb u (u * growth) || mem_nat (u * growth) (points ++ u ∷ [])) ≡ true
    at_upper zero = ground (arith, mem_nat-append 0 points (0 ∷ []))
    at_upper (suc u) = ground (arith, doubles (suc u) growth (omega arith) g)

-- The loop of a sweep from a concurrency of at least 1, with a growth of at least 2, ends: any fuel
-- above the upper bound gives the same points. The points of the sweep ascend without repetition, none
-- is above the upper bound, the upper bound is one of them, and so are the start and, with each point,
-- its multiple by the growth, where these are within the bound.
pub sweep_points-AscendingFrom :
    (fuel start growth upper : ℕ)
    → 1 ≤ start
    → 2 ≤ growth
    → upper < fuel
    → let points = sweep_points start growth upper in
      (geometric fuel growth upper start ≡ geometric (suc upper) growth upper start)
      × AscendingFrom 0 points
      × All (λ c. c ≤ upper) points
      × (mem_nat upper points ≡ true)
      × ((ltb upper start || mem_nat start points) ≡ true)
      × IsClosed growth upper points points
unfolding sweep_points
sweep_points-AscendingFrom fuel start growth upper h g e =
    let points = geometric (suc upper) growth upper start in
    let below = geometric-All_le (suc upper) growth upper start in
    let closed = geometric-IsClosed (suc upper) growth upper start h g (omega arith) in
    let full = if short_of upper points then points ++ upper ∷ [] else points in
    let first = geometric-mem (suc upper) growth upper start (omega arith) in
    (
      geometric_ends fuel growth upper start h g e,
      sorted_set-AscendingFrom full,
      All-sorted_set (λ c. c ≤ upper) full
          (if_intro (λ xs. All (λ c. c ≤ upper) xs) (short_of upper points)
            {x = points ++ upper ∷ []} {y = points}
            (All-append (λ c. c ≤ upper) points (upper ∷ []) below (omega arith, tt)) below),
      mem_nat-sorted_set upper full ∙ last_upper upper points below,
      rw (mem_nat-sorted_set start full) (
          if_intro (λ xs. (ltb upper start || mem_nat start xs) ≡ true) (short_of upper points)
            {x = points ++ upper ∷ []} {y = points}
            (ground (arith, mem_nat-append start points (upper ∷ []), first)) first),
      All-sorted_set
          (λ c. (ltb upper (c * growth) || mem_nat (c * growth) (sorted_set full)) ≡ true) full
          (IsClosed-more growth upper full (sorted_set full) full
            (λ x m. mem_nat-sorted_set x full ∙ m)
            (if_intro (λ xs. IsClosed growth upper xs xs) (short_of upper points)
              {x = points ++ upper ∷ []} {y = points} (upper-IsClosed growth upper points g closed)
              closed)),
    )
