-- ===== src/Planner/Groups/Exhaustive.antt =====
-- planner/gpu_groups.py, `_exhaustive`: the partitions that the enumeration may find.
use open_baseten_inference.Prelude.{
  ℕ, zero, suc, ◌+◌, ◌-◌, ◌*◌, ◌≤◌, ◌≡◌, refl, true, none, some, List, [], ◌∷◌, ◌++◌, map, arith,
  ltb, ◌==◌, mem_nat, ==_refl, length, sum_by, sum_by-append, All, All-append, All-map, if_intro,
  Bool-cases, inl, inr,
}
use open_baseten_inference.Schemas.Hardware.{HardwareSnapshot}
use open_baseten_inference.Planner.Groups.{
  Best, Search, improve, over, without, combinations, branch, recurse, partition_score,
}
use open_baseten_inference.Planner.Groups.Carve.{Carved, total}

-- A choice of `k` elements: what it takes and what `without` leaves of the list add up to no more
-- than the list.
record Picked (k : ℕ) (xs c : List ℕ) : Type 0 where
  size : length c ≡ k
  apart :
      (d : List ℕ) (f : ℕ → ℕ)
      → All (λ y. mem_nat y d ≡ true) c
      → sum_by f c + sum_by f (without d xs) ≤ sum_by f xs

pub without-le : (f : ℕ → ℕ) (d xs : List ℕ) → sum_by f (without d xs) ≤ sum_by f xs
without-le f d [] = omega arith
without-le f d (x ∷ xs) = ground (arith, without-le f d xs)

Picked-take : (k x : ℕ) (xs c : List ℕ) → Picked k xs c → Picked (suc k) (x ∷ xs) (x ∷ c)
Picked-take k x xs c p = record {
  size = omega (arith, p.size);
  apart = λ d f all. rw all.0 (omega (arith, p.apart d f all.1));
}

Picked-skip : (k x : ℕ) (xs c : List ℕ) → Picked k xs c → Picked k (x ∷ xs) c
Picked-skip k x xs c p = record {
  size = p.size;
  apart = λ d f all. ground (arith, p.apart d f all);
}

All-map_cons :
    (k x : ℕ) (xs : List ℕ) (cs : List (List ℕ))
    → All (Picked k xs) cs
    → All (Picked (suc k) (x ∷ xs)) (map (λ c. x ∷ c) cs)
All-map_cons k x xs [] p = tt
All-map_cons k x xs (c ∷ cs) p = (Picked-take k x xs c p.0, All-map_cons k x xs cs p.1)

combinations-Picked : (k : ℕ) (xs : List ℕ) → All (Picked k xs) (combinations k xs)
unfolding combinations
combinations-Picked zero xs =
    (record { size = refl; apart = λ d f all. omega (arith, without-le f d xs) }, tt)
combinations-Picked (suc k) [] = tt
combinations-Picked (suc k) (x ∷ xs) =
    All-append (Picked (suc k) (x ∷ xs)) (map (λ c. x ∷ c) (combinations k xs))
      (combinations (suc k) xs) (All-map_cons k x xs (combinations k xs) (combinations-Picked k xs))
      (All-map (Picked (suc k) xs) (Picked (suc k) (x ∷ xs)) (λ c. Picked-skip (suc k) x xs c)
        (combinations (suc k) xs) (combinations-Picked (suc k) xs))

All-mem_nat :
    (d c : List ℕ)
    → ((y : ℕ) → mem_nat y c ≡ true → mem_nat y d ≡ true)
    → All (λ y. mem_nat y d ≡ true) c
All-mem_nat d [] h = tt
All-mem_nat d (x ∷ c) h =
    (h x (ground (arith, ==_refl x)), All-mem_nat d c (λ y m. h y (ground (arith, m))))

-- The groups chosen so far and the remaining GPUs.
pub record Chosen (tp_size : ℕ) (ids remaining : List ℕ) (chosen : List (List ℕ)) : Type 0 where
  pub sizes : All (λ g. length g ≡ tp_size) chosen
  pub within : (f : ℕ → ℕ) → total f chosen + sum_by f remaining ≤ sum_by f ids

-- The best so far is a full partition with its score.
abbrev pub Sound : HardwareSnapshot → ℕ → ℕ → List ℕ → Best → Type 0
Sound s tp_size n ids none = Unit
Sound s tp_size n ids (some (score, groups)) =
    Carved tp_size ids groups × (length groups ≡ n) × (score ≡ partition_score s groups)

module _ (s : HardwareSnapshot) (tp n : ℕ) (pos : 1 ≤ tp) (ids : List ℕ) where
  improve-Sound :
      (chosen : List (List ℕ)) (remaining : List ℕ) (best : Best)
      → Chosen tp ids remaining chosen
      → (length chosen == n) ≡ true
      → Sound s tp n ids best
      → Sound s tp n ids (improve (partition_score s chosen) chosen best)
  improve-Sound chosen remaining none c e b =
      (record { sizes = c.sizes; within = λ f. omega (arith, c.within f) }, ground arith, refl)
  improve-Sound chosen remaining (some (top, groups)) c e b =
      if_intro (Sound s tp n ids) (ltb top (partition_score s chosen))
        (record { sizes = c.sizes; within = λ f. omega (arith, c.within f) }, ground arith, refl) b

  -- what a call of the search keeps
  abbrev pub Keeps : Search → Type 0
  Keeps again =
      (remaining : List ℕ) (chosen : List (List ℕ)) (best : Best)
      → Chosen tp ids remaining chosen
      → Sound s tp n ids best
      → Sound s tp n ids (again remaining chosen best)

  over-Sound :
      (again : Search) (anchor : ℕ) (rest : List ℕ) (chosen : List (List ℕ)) (cs : List (List ℕ))
      (best : Best)
      → Keeps again
      → Chosen tp ids (anchor ∷ rest) chosen
      → All (Picked (tp - 1) rest) cs
      → Sound s tp n ids best
      → Sound s tp n ids
          (over (λ combo. again (without combo rest) (chosen ++ (anchor ∷ combo) ∷ [])) cs best)
  over-Sound again anchor rest chosen [] best keeps c p b = b
  over-Sound again anchor rest chosen (combo ∷ cs) best keeps c p b =
      over-Sound again anchor rest chosen cs _ keeps c p.1 (
        keeps (without combo rest) (chosen ++ (anchor ∷ combo) ∷ []) best
          (record {
            sizes =
                All-append (λ g. length g ≡ tp) chosen ((anchor ∷ combo) ∷ []) c.sizes
                  (omega (arith, p.0.size, pos), tt);
            within = λ f. omega (
              arith,
              c.within f,
              sum_by-append (sum_by f) chosen ((anchor ∷ combo) ∷ []),
              p.0.apart combo f (All-mem_nat combo combo (λ y m. m)),
            );
          })
          b)

  branch-Sound : (again : Search) (needed : ℕ) → Keeps again → Keeps (branch tp needed again)
  branch-Sound again needed keeps [] chosen best c b = b
  branch-Sound again needed keeps (anchor ∷ rest) chosen best c b =
      let found =
        over-Sound again anchor rest chosen (combinations (tp - 1) rest) best keeps c
          (combinations-Picked (tp - 1) rest) b in
      if_intro (Sound s tp n ids) (ltb (length (anchor ∷ rest)) needed) b (
        if_intro (Sound s tp n ids) (ltb needed (length (anchor ∷ rest)))
          (keeps rest chosen _ (record { sizes = c.sizes; within = λ f. omega (arith, c.within f) })
            found)
          found)

  pub recurse-Sound : (fuel : ℕ) → Keeps (recurse s tp n fuel)
  unfolding recurse
  recurse-Sound zero remaining chosen best c b = elim (Bool-cases (length chosen == n)) [
    | inl e ↦ rw e (improve-Sound chosen remaining best c e b)
    | inr e ↦ rw e b
  ]
  recurse-Sound (suc fuel) remaining chosen best c b = elim (Bool-cases (length chosen == n)) [
    | inl e ↦ rw e (improve-Sound chosen remaining best c e b)
    | inr e ↦ rw e (
        branch-Sound (recurse s tp n fuel) (tp * (n - length chosen)) (recurse-Sound fuel) remaining
          chosen best c b)
  ]
