-- ===== src/Planner/Groups/Greedy.antt =====
-- planner/gpu_groups.py, `_greedy`: the groups of the heuristic for large machines.
use open_baseten_inference.Prelude.{
  ℕ, zero, suc, ◌+◌, ◌-◌, ◌*◌, ◌≤◌, ◌≡◌, refl, ap, List, [], ◌∷◌, ◌++◌, arith, length,
  length-append, sum_by, sum_by-append,
}
use open_baseten_inference.Schemas.Hardware.{HardwareSnapshot}
use open_baseten_inference.Planner.Groups.{pair_score, top, remove, grow, greedy, connectivity}
use open_baseten_inference.Planner.Groups.Carve.{
  Carved, sum_by-remove, length-remove, top-mem_nat, sum_by-sorted, length-sorted, mul_suc,
}

-- The GPUs of the group and the remaining ones are those from before, and the group has grown by `n`.
record Grown (n : ℕ) (group remaining : List ℕ) (o : List ℕ × List ℕ) : Type 0 where
  size : length o.0 ≡ length group + n
  left : length o.1 + n ≡ length remaining
  kept : (f : ℕ → ℕ) → sum_by f o.0 + sum_by f o.1 ≡ sum_by f group + sum_by f remaining

grow-Grown :
    (s : HardwareSnapshot) (n : ℕ) (group remaining : List ℕ)
    → n ≤ length remaining
    → Grown n group remaining (grow s n group remaining)
unfolding grow
grow-Grown s zero group remaining h = record {
  size = omega arith;
  left = omega arith;
  kept = λ f. refl;
}
grow-Grown s (suc n) group [] h = absurd (omega arith)
grow-Grown s (suc n) group (r ∷ rs) h =
    let nxt = top (λ c. sum_by (pair_score s c) group) r rs in
    let found = top-mem_nat (λ c. sum_by (pair_score s c) group) r rs in
    let shorter = length-remove nxt (r ∷ rs) found in
    let g = grow-Grown s n (group ++ nxt ∷ []) (remove nxt (r ∷ rs)) (omega (arith, shorter)) in
    record {
      size = omega (arith, g.size, length-append group (nxt ∷ []));
      left = omega (arith, g.left, shorter);
      kept = λ f.
          omega
            (arith, g.kept f, sum_by-append f group (nxt ∷ []), sum_by-remove f nxt (r ∷ rs) found);
    }

-- As many groups as asked for, when there are GPUs enough for them.
pub greedy-Carved :
    (s : HardwareSnapshot) (tp n : ℕ) (remaining : List ℕ)
    → 1 ≤ tp
    → tp * n ≤ length remaining
    → Carved tp remaining (greedy s tp n remaining) × (length (greedy s tp n remaining) ≡ n)
unfolding greedy
greedy-Carved s tp zero remaining pos h = (record { sizes = tt; within = λ f. omega arith }, refl)
greedy-Carved s tp (suc n) [] pos h = absurd (omega (arith, mul_suc tp n))
greedy-Carved s tp (suc n) (r ∷ rs) pos h =
    let seed = top (connectivity s (r ∷ rs)) r rs in
    let found = top-mem_nat (connectivity s (r ∷ rs)) r rs in
    let shorter = length-remove seed (r ∷ rs) found in
    let enough = mul_suc tp n in
    let grown =
      grow-Grown s (tp - 1) (seed ∷ []) (remove seed (r ∷ rs)) (omega (arith, shorter, enough)) in
    let o = grow s (tp - 1) (seed ∷ []) (remove seed (r ∷ rs)) in
    let (carved, count) =
      greedy-Carved s tp n o.1 pos (omega (arith, shorter, enough, grown.left)) in
    (
      record {
        sizes = (omega (arith, grown.size, length-sorted o.0), carved.sizes);
        within = λ f. omega (
          arith,
          carved.within f,
          sum_by-sorted f o.0,
          grown.kept f,
          sum_by-remove f seed (r ∷ rs) found,
        );
      },
      ap suc count,
    )
