-- ===== src/Planner/Groups/Carve.antt =====
-- planner/gpu_groups.py: what it means that groups are carved out of the given GPUs. The use of GPUs is
-- measured by any weight on them, which covers how often one occurs and how many there are.
use open_baseten_inference.Prelude.{
  ℕ, zero, suc, ◌+◌, ◌*◌, ◌≤◌, ◌≡◌, refl, true, List, [], ◌∷◌, arith, ◌==◌, mem_nat, take, length,
  sum_by, All, if_intro, Bool-cases, inl, inr,
}
use open_baseten_inference.Planner.Groups.{
  insert, sorted, top, remove, tidy, insert_group, head_le, singletons,
}

-- the weight of all GPUs of the groups
abbrev pub total : (ℕ → ℕ) → List (List ℕ) → ℕ
total f = sum_by (sum_by f)

pub record Carved (tp_size : ℕ) (ids : List ℕ) (groups : List (List ℕ)) : Type 0 where
  pub sizes : All (λ g. length g ≡ tp_size) groups
  pub within : (f : ℕ → ℕ) → total f groups ≤ sum_by f ids

pub length-sum : (xs : List ℕ) → sum_by (λ x. 1) xs ≡ length xs
length-sum [] = refl
length-sum (x ∷ xs) = omega (arith, length-sum xs)

sum_by-insert : (f : ℕ → ℕ) (x : ℕ) (ys : List ℕ) → sum_by f (insert x ys) ≡ f x + sum_by f ys
sum_by-insert f x [] = refl
sum_by-insert f x (y ∷ ys) = ground (arith, sum_by-insert f x ys)

pub sum_by-sorted : (f : ℕ → ℕ) (xs : List ℕ) → sum_by f (sorted xs) ≡ sum_by f xs
unfolding sorted
sum_by-sorted f [] = refl
sum_by-sorted f (x ∷ xs) = omega (arith, sum_by-insert f x (sorted xs), sum_by-sorted f xs)

pub length-sorted : (xs : List ℕ) → length (sorted xs) ≡ length xs
length-sorted xs = omega (arith, sum_by-sorted (λ x. 1) xs, length-sum xs, length-sum (sorted xs))

pub sum_by-remove :
    (f : ℕ → ℕ) (a : ℕ) (xs : List ℕ)
    → mem_nat a xs ≡ true
    → sum_by f (remove a xs) + f a ≡ sum_by f xs
sum_by-remove f a [] h = ground arith
sum_by-remove f a (x ∷ xs) h = elim (Bool-cases (a == x)) [
  | inl e ↦ let same : a ≡ x = ground arith in rw e (rw same (omega arith))
  | inr e ↦
      let later : mem_nat a xs ≡ true = ground arith in
      rw e (omega (arith, sum_by-remove f a xs later))
]

pub length-remove :
    (a : ℕ) (xs : List ℕ) → mem_nat a xs ≡ true → length (remove a xs) + 1 ≡ length xs
length-remove a xs h =
    omega (arith, sum_by-remove (λ x. 1) a xs h, length-sum xs, length-sum (remove a xs))

pub top-mem_nat : (f : ℕ → ℕ) (x : ℕ) (ys : List ℕ) → mem_nat (top f x ys) (x ∷ ys) ≡ true
unfolding top
top-mem_nat f x [] = ground arith
top-mem_nat f x (y ∷ ys) = ground (arith, top-mem_nat f x ys, top-mem_nat f y ys)

pub sum_by-take : (f : ℕ → ℕ) (n : ℕ) (xs : List ℕ) → sum_by f (take n xs) ≤ sum_by f xs
sum_by-take f zero xs = omega arith
sum_by-take f (suc n) [] = omega arith
sum_by-take f (suc n) (x ∷ xs) = omega (arith, sum_by-take f n xs)

-- One GPU per group.
pub singletons-Carved :
    (ids all : List ℕ) → ((f : ℕ → ℕ) → sum_by f ids ≤ sum_by f all) → Carved 1 all (singletons ids)
singletons-Carved ids all h = record {
  sizes = ones ids;
  within = λ f. omega (arith, same f ids, h f);
}
  where
    ones : (xs : List ℕ) → All (λ g. length g ≡ 1) (singletons xs)
    ones [] = tt
    ones (x ∷ xs) = (refl, ones xs)

    same : (f : ℕ → ℕ) (xs : List ℕ) → total f (singletons xs) ≡ sum_by f xs
    same f [] = refl
    same f (x ∷ xs) = omega (arith, same f xs)

insert_group-total :
    (f : ℕ → ℕ) (g : List ℕ) (hs : List (List ℕ))
    → total f (insert_group g hs) ≡ sum_by f g + total f hs
insert_group-total f g [] = refl
insert_group-total f g (h ∷ hs) = ground (arith, insert_group-total f g hs)

insert_group-sizes :
    (n : ℕ) (g : List ℕ) (hs : List (List ℕ))
    → length g ≡ n
    → All (λ h. length h ≡ n) hs
    → All (λ h. length h ≡ n) (insert_group g hs)
insert_group-sizes n g [] e p = (e, tt)
insert_group-sizes n g (h ∷ hs) e p =
    if_intro (λ gs. All (λ h. length h ≡ n) gs) (head_le g h) (e, p)
      (p.0, insert_group-sizes n g hs e p.1)

tidy-total : (f : ℕ → ℕ) (gs : List (List ℕ)) → total f (tidy gs) ≡ total f gs
unfolding tidy
tidy-total f [] = refl
tidy-total f (g ∷ gs) =
    omega (arith, insert_group-total f (sorted g) (tidy gs), tidy-total f gs, sum_by-sorted f g)

tidy-sizes :
    (n : ℕ) (gs : List (List ℕ)) → All (λ h. length h ≡ n) gs → All (λ h. length h ≡ n) (tidy gs)
unfolding tidy
tidy-sizes n [] p = p
tidy-sizes n (g ∷ gs) p =
    insert_group-sizes n (sorted g) (tidy gs) (omega (arith, length-sorted g, p.0))
      (tidy-sizes n gs p.1)

length-insert_group : (g : List ℕ) (hs : List (List ℕ)) → length (insert_group g hs) ≡ length hs + 1
length-insert_group g [] = refl
length-insert_group g (h ∷ hs) = ground (arith, length-insert_group g hs)

pub length-tidy : (gs : List (List ℕ)) → length (tidy gs) ≡ length gs
unfolding tidy
length-tidy [] = refl
length-tidy (g ∷ gs) = omega (arith, length-insert_group (sorted g) (tidy gs), length-tidy gs)

pub tidy-Carved :
    (n : ℕ) (ids : List ℕ) (gs : List (List ℕ)) → Carved n ids gs → Carved n ids (tidy gs)
tidy-Carved n ids gs c = record {
  sizes = tidy-sizes n gs c.sizes;
  within = λ f. omega (arith, tidy-total f gs, c.within f);
}

-- one group more
pub mul_suc : (tp n : ℕ) → tp * suc n ≡ tp * n + tp
mul_suc tp n = omega arith
