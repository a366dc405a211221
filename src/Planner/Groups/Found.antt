-- ===== src/Planner/Groups/Found.antt =====
-- planner/gpu_groups.py, `_exhaustive`: when the enumeration finds a partition.
use open_baseten_inference.Prelude.{
  ℕ, zero, suc, ◌+◌, ◌-◌, ◌*◌, ◌≤◌, ◌<◌, ◌≡◌, refl, ap, false, not, none, some, List, [], ◌∷◌, ◌++◌,
  map, arith, ltb, ◌==◌, mem_nat, Distinct, length, length-append, if_intro, Bool-cases, inl, inr,
}
use open_baseten_inference.Schemas.Hardware.{HardwareSnapshot}
use open_baseten_inference.Planner.Groups.{
  Best, Search, improve, over, without, combinations, branch, recurse, partition_score,
}
use open_baseten_inference.Planner.Groups.Carve.{length-sum, mul_suc}
use open_baseten_inference.Planner.Groups.Exhaustive.{without-le}

abbrev pub IsFound : Best → Type 0
IsFound none = ⊥
IsFound (some b) = Unit

improve-IsFound : (score : ℕ) (gs : List (List ℕ)) (b : Best) → IsFound (improve score gs b)
improve-IsFound score gs none = tt
improve-IsFound score gs (some (best, hs)) =
    if_intro IsFound (ltb best score) {x = some (score, gs)} {y = some (best, hs)} tt tt

-- A search keeps what was found.
abbrev pub Holds : Search → Type 0
Holds again =
    (remaining : List ℕ) (chosen : List (List ℕ)) (b : Best)
    → IsFound b
    → IsFound (again remaining chosen b)

over-IsFound :
    (f : List ℕ → Best → Best) (cs : List (List ℕ)) (b : Best)
    → ((c : List ℕ) (b' : Best) → IsFound b' → IsFound (f c b'))
    → IsFound b
    → IsFound (over f cs b)
over-IsFound f [] b h p = p
over-IsFound f (c ∷ cs) b h p = over-IsFound f cs (f c b) h (h c b p)

branch-IsFound : (tp needed : ℕ) (again : Search) → Holds again → Holds (branch tp needed again)
branch-IsFound tp needed again h [] chosen b p = p
branch-IsFound tp needed again h (anchor ∷ rest) chosen b p =
    let q =
      over-IsFound (λ c. again (without c rest) (chosen ++ (anchor ∷ c) ∷ []))
        (combinations (tp - 1) rest) b (λ c b'. h (without c rest) _ b') p in
    if_intro IsFound (ltb (length (anchor ∷ rest)) needed) p
      (if_intro IsFound (ltb needed (length (anchor ∷ rest))) (h rest chosen _ q) q)

recurse-Holds : (s : HardwareSnapshot) (tp n fuel : ℕ) → Holds (recurse s tp n fuel)
unfolding recurse
recurse-Holds s tp n zero remaining chosen b p =
    if_intro IsFound (length chosen == n) (improve-IsFound (partition_score s chosen) chosen b) p
recurse-Holds s tp n (suc fuel) remaining chosen b p =
    if_intro IsFound (length chosen == n) (improve-IsFound (partition_score s chosen) chosen b)
      (branch-IsFound tp _ _ (recurse-Holds s tp n fuel) remaining chosen b p)

without-fresh : (x : ℕ) (c xs : List ℕ) → mem_nat x xs ≡ false → without (x ∷ c) xs ≡ without c xs
without-fresh x c [] h = refl
without-fresh x c (y ∷ ys) h = ground (arith, without-fresh x c ys)

without-cons :
    (x : ℕ) (c xs : List ℕ) → Distinct xs → length (without c xs) ≤ length (without (x ∷ c) xs) + 1
without-cons x c [] d = omega arith
without-cons x c (y ∷ ys) d = elim (Bool-cases (y == x)) [
  | inl e ↦
      let same : y ≡ x = ground arith in
      let fresh = without-fresh x c ys (rw (← same) d.0) in ground (arith, ap length fresh)
  | inr e ↦ ground (arith, without-cons x c ys d.1, e)
]

without-none : (xs : List ℕ) → without [] xs ≡ xs
without-none [] = refl
without-none (x ∷ xs) = ap (λ ys. x ∷ ys) (without-none xs)

without-ge : (c xs : List ℕ) → Distinct xs → length xs ≤ length (without c xs) + length c
without-ge [] xs d = rw (without-none xs) (omega arith)
without-ge (x ∷ c) xs d = omega (arith, without-ge c xs d, without-cons x c xs d)

mem_nat-without : (x : ℕ) (c xs : List ℕ) → mem_nat x xs ≡ false → mem_nat x (without c xs) ≡ false
mem_nat-without x c [] h = refl
mem_nat-without x c (y ∷ ys) h = ground (arith, mem_nat-without x c ys)

Distinct-without : (c xs : List ℕ) → Distinct xs → Distinct (without c xs)
Distinct-without c [] d = d
Distinct-without c (x ∷ xs) d =
    if_intro Distinct (not (mem_nat x c)) (mem_nat-without x c xs d.0, Distinct-without c xs d.1)
      (Distinct-without c xs d.1)

-- There is a first choice of `k` elements.
combinations-first :
    (k : ℕ) (xs : List ℕ)
    → k ≤ length xs
    → (c : List ℕ) × (cs : List (List ℕ)) × (combinations k xs ≡ c ∷ cs) × (length c ≡ k)
unfolding combinations
combinations-first zero xs h = ([], [], refl, refl)
combinations-first (suc k) [] h = absurd (omega arith)
combinations-first (suc k) (x ∷ xs) h =
    let (c, cs, e, size) = combinations-first k xs (omega arith) in
    (x ∷ c, map (λ d. x ∷ d) cs ++ combinations (suc k) xs, rw e, ap suc size)

module _ (s : HardwareSnapshot) (tp n : ℕ) (pos : 1 ≤ tp) where
  -- the search finds a partition when there is room for one
  abbrev pub Finds : ℕ → Search → Type 0
  Finds fuel again =
      (remaining : List ℕ) (chosen : List (List ℕ)) (b : Best)
      → length chosen ≤ n
      → tp * (n - length chosen) ≤ length remaining
      → length remaining ≤ fuel
      → Distinct remaining
      → IsFound (again remaining chosen b)

  -- the first choice beside the anchor leaves room for the groups that are still to come
  first-Finds :
      (fuel : ℕ) (again : Search)
      → Holds again
      → Finds fuel again
      → (anchor : ℕ) (rest : List ℕ) (chosen : List (List ℕ)) (b : Best) (m : ℕ) → length chosen < n
      → n - length chosen ≡ suc m
      → tp * m + tp ≤ length rest + 1
      → length rest + 1 ≤ suc fuel
      → Distinct rest
      → IsFound (
          over
            (λ combo. again (without combo rest) (chosen ++ (anchor ∷ combo) ∷ []))
            (combinations (tp - 1) rest)
            b)
  first-Finds fuel again holds finds anchor rest chosen b m lt e room enough d =
      let (c, cs, first, size) = combinations-first (tp - 1) rest (omega arith) in
      let longer = length-append chosen ((anchor ∷ c) ∷ []) in
      let left : n - length (chosen ++ (anchor ∷ c) ∷ []) ≡ m = omega (arith, longer) in
      rw first (
        over-IsFound (λ combo. again (without combo rest) (chosen ++ (anchor ∷ combo) ∷ [])) cs _
          (λ c' b'. holds (without c' rest) _ b')
          (finds (without c rest) (chosen ++ (anchor ∷ c) ∷ []) b (omega (arith, longer))
            (rw left (omega (arith, without-ge c rest d, size)))
            (omega
              (arith, without-le (λ x. 1) c rest, length-sum rest, length-sum (without c rest)))
            (Distinct-without c rest d)))

  branch-Finds :
      (fuel : ℕ) (again : Search)
      → Holds again
      → Finds fuel again
      → (remaining : List ℕ) (chosen : List (List ℕ)) (b : Best) → length chosen < n
      → tp * (n - length chosen) ≤ length remaining
      → length remaining ≤ suc fuel
      → Distinct remaining
      → IsFound (branch tp (tp * (n - length chosen)) again remaining chosen b)
  branch-Finds fuel again holds finds [] chosen b lt room enough d =
      let m = n - length chosen - 1 in
      let e : n - length chosen ≡ suc m = omega arith in
      absurd (omega (arith, (rw e at room), mul_suc tp m))
  branch-Finds fuel again holds finds (anchor ∷ rest) chosen b lt room enough d =
      let m = n - length chosen - 1 in
      let e : n - length chosen ≡ suc m = omega arith in
      let room' : tp * m + tp ≤ length rest + 1 = omega (arith, (rw e at room), mul_suc tp m) in
      let fits : ltb (length (anchor ∷ rest)) (tp * (n - length chosen)) ≡ false = ground arith in
      let q =
        first-Finds fuel again holds finds anchor rest chosen b m lt e room' (omega arith) d.1 in
      rw fits (
        if_intro IsFound (ltb (tp * (n - length chosen)) (length (anchor ∷ rest)))
          (holds rest chosen _ q) q)

  pub recurse-Finds : (fuel : ℕ) → Finds fuel (recurse s tp n fuel)
  unfolding recurse
  recurse-Finds zero remaining chosen b le room enough d = elim (Bool-cases (length chosen == n)) [
    | inl full ↦ rw full (improve-IsFound (partition_score s chosen) chosen b)
    | inr more ↦
        let m = n - length chosen - 1 in
        let lt : length chosen < n = ground (arith, more) in
        let e : n - length chosen ≡ suc m = omega arith in
        absurd (omega (arith, (rw e at room), mul_suc tp m))
  ]
  recurse-Finds (suc fuel) remaining chosen b le room enough d =
      elim (Bool-cases (length chosen == n)) [
        | inl full ↦ rw full (improve-IsFound (partition_score s chosen) chosen b)
        | inr more ↦ rw more (
            branch-Finds fuel (recurse s tp n fuel) (recurse-Holds s tp n fuel) (recurse-Finds fuel)
              remaining chosen b (ground (arith, more)) room enough d)
      ]
