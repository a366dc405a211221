-- ===== src/Planner/Groups/Together.antt =====
-- planner/gpu_groups.py, `plan` when groups may span machines or all GPUs are on one.
use open_baseten_inference.Prelude.{
  ℕ, zero, suc, ◌-◌, ◌*◌, ◌≤◌, ◌<◌, ◌≡◌, refl, ap, false, ◌||◌, ltb→lt, Option, none, some, List,
  [], ◌∷◌, arith, ltb, leb, ◌==◌, take, mem_nat, Distinct, length, if_intro, Bool-cases, inl, inr,
}
use open_baseten_inference.Schemas.Hardware.{HardwareSnapshot}
use open_baseten_inference.Planner.Groups.{
  Best, recurse, exhaustive, groups_of, tidied, sorted, insert, singletons, searched, plan_together,
}
use open_baseten_inference.Planner.Groups.Carve.{
  Carved, sum_by-sorted, length-sorted, sum_by-take, singletons-Carved, tidy-Carved, length-tidy,
}
use open_baseten_inference.Planner.Groups.Greedy.{greedy-Carved}
use open_baseten_inference.Planner.Groups.Exhaustive.{Sound, recurse-Sound}
use open_baseten_inference.Planner.Groups.Found.{IsFound, recurse-Finds}

-- What the search comes to: groups that fit, or too few GPUs.
abbrev pub Planned : ℕ → ℕ → List ℕ → Option (List (List ℕ)) → Type 0
Planned tp n ids none = length ids < tp * n
Planned tp n ids (some groups) = (tp * n ≤ length ids) × Carved tp ids groups × (length groups ≡ n)

mem_nat-insert : (a x : ℕ) (xs : List ℕ) → mem_nat a (insert x xs) ≡ (a == x || mem_nat a xs)
mem_nat-insert a x [] = refl
mem_nat-insert a x (y ∷ ys) = ground (arith, mem_nat-insert a x ys)

mem_nat-sorted : (a : ℕ) (xs : List ℕ) → mem_nat a (sorted xs) ≡ mem_nat a xs
unfolding sorted
mem_nat-sorted a [] = refl
mem_nat-sorted a (x ∷ xs) = rw (mem_nat-insert a x (sorted xs), mem_nat-sorted a xs)

Distinct-insert :
    (x : ℕ) (xs : List ℕ) → mem_nat x xs ≡ false → Distinct xs → Distinct (insert x xs)
Distinct-insert x [] h d = (refl, tt)
Distinct-insert x (y ∷ ys) h d =
    let apart : mem_nat x ys ≡ false = ground arith in
    let back : mem_nat y (insert x ys) ≡ false = ground (arith, mem_nat-insert y x ys, d.0) in
    if_intro Distinct (leb x y) (h, d) (back, Distinct-insert x ys apart d.1)

pub Distinct-sorted : (xs : List ℕ) → Distinct xs → Distinct (sorted xs)
unfolding sorted
Distinct-sorted [] d = d
Distinct-sorted (x ∷ xs) d =
    Distinct-insert x (sorted xs) (rw (mem_nat-sorted x xs) d.0) (Distinct-sorted xs d.1)

length-singletons : (n : ℕ) (ids : List ℕ) → n ≤ length ids → length (singletons (take n ids)) ≡ n
length-singletons zero ids h = refl
length-singletons (suc n) [] h = absurd (omega arith)
length-singletons (suc n) (x ∷ xs) h = ap suc (length-singletons n xs (omega arith))

module _ (s : HardwareSnapshot) (tp n : ℕ) (pos : 1 ≤ tp) where
  groups_of-Planned :
      (ids : List ℕ) (b : Best)
      → tp * n ≤ length ids
      → Sound s tp n ids b
      → IsFound b
      → Planned tp n ids (groups_of b)
  groups_of-Planned ids none room sound found = absurd found
  groups_of-Planned ids (some (score, groups)) room sound found = (room, sound.0, sound.1)

  exhaustive-Planned :
      (ids : List ℕ) → Distinct ids → tp * n ≤ length ids → Planned tp n ids (exhaustive s tp n ids)
  unfolding exhaustive
  exhaustive-Planned ids d room =
      let whole : n - 0 ≡ n = omega arith in
      groups_of-Planned ids (recurse s tp n (length ids) ids [] none) room
        (recurse-Sound s tp n pos ids (length ids) ids [] none
          (record { sizes = tt; within = λ f. omega arith }) tt)
        (recurse-Finds s tp n pos (length ids) ids [] none (omega arith) (rw whole room)
          (omega arith) d)

  searched-Planned :
      (ids : List ℕ) → Distinct ids → tp * n ≤ length ids → Planned tp n ids (searched s tp n ids)
  searched-Planned ids d room =
      if_intro (Planned tp n ids) (leb (length ids) 8) (exhaustive-Planned ids d room)
        (let g = greedy-Carved s tp n ids pos room in (room, g.0, g.1))

  tidied-Planned :
      (ids : List ℕ) (o : Option (List (List ℕ))) → Planned tp n ids o → Planned tp n ids (tidied o)
  tidied-Planned ids none p = p
  tidied-Planned ids (some groups) p =
      (p.0, tidy-Carved tp ids groups p.1, omega (arith, length-tidy groups, p.2))

  sorted-Planned :
      (ids : List ℕ) (o : Option (List (List ℕ))) → Planned tp n (sorted ids) o → Planned tp n ids o
  sorted-Planned ids none p = rw (← length-sorted ids) p
  sorted-Planned ids (some groups) p = (
    omega (arith, length-sorted ids, p.0),
    record { sizes = p.1.sizes; within = λ f. omega (arith, p.1.within f, sum_by-sorted f ids) },
    p.2,
  )

  singletons-Planned :
      (ids : List ℕ)
      → tp ≡ 1
      → tp * n ≤ length ids
      → Planned tp n ids (some (singletons (take n ids)))
  singletons-Planned ids one room =
      let room' : n ≤ length ids = omega (arith, (rw one at room)) in
      (
        room,
        rw one (singletons-Carved (take n ids) ids (λ f. sum_by-take f n ids)),
        length-singletons n ids room',
      )

  -- For different GPUs and groups of at least one GPU, `plan` over machines fails exactly when there are fewer GPUs
  -- than `tp_size * replica_count`. Otherwise it returns `replica_count` groups of `tp_size` GPUs
  -- each, in which no GPU is used twice and none that was not given.
  pub plan_together-Planned :
      (gpu_ids : List ℕ) → Distinct gpu_ids → Planned tp n gpu_ids (plan_together s tp n gpu_ids)
  unfolding plan_together
  plan_together-Planned gpu_ids d =
      let ids = sorted gpu_ids in
      elim (Bool-cases (ltb (length ids) (tp * n))) [
        | inl few ↦ rw few (sorted-Planned gpu_ids none (ltb→lt (length ids) (tp * n) few))
        | inr many ↦
            let room : tp * n ≤ length ids = ground (arith, many) in
            elim (Bool-cases (tp == 1)) [
              | inl one ↦
                  rw (many, one)
                    (sorted-Planned gpu_ids (some (singletons (take n ids)))
                      (singletons-Planned ids (ground (arith, one)) room))
              | inr more ↦
                  rw (many, more)
                    (sorted-Planned gpu_ids (tidied (searched s tp n ids)) (
                      tidied-Planned ids _ (searched-Planned ids (Distinct-sorted gpu_ids d) room)))
            ]
      ]
