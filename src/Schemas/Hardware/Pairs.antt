-- ===== src/Schemas/Hardware/Pairs.antt =====
-- hardware/topology.py, `build_topology`, and the lookup of its edges.
use open_baseten_inference.Prelude.{
  ℕ, ◌+◌, ◌≤◌, ◌<◌, ◌≡◌, refl, String, true, false, ◌||◌, ==_refl, inl, inr, some, List, [], ◌∷◌,
  ◌++◌, arith, ltb, ◌==◌, mem_nat, Bool-cases, ltb→lt,
}
use open_baseten_inference.Schemas.Hardware.{
  TopologyEdge, find_edge, edge, edges_from, all_edges, insert_index, sorted_set, build_topology,
  topology_edge,
}

-- ascending, without repetition, from `lo` on
abbrev pub AscendingFrom : ℕ → List ℕ → Type 0
AscendingFrom lo [] = Unit
AscendingFrom lo (x ∷ xs) = (lo ≤ x) × AscendingFrom (x + 1) xs

insert_index-AscendingFrom :
    (lo x : ℕ) (xs : List ℕ) → lo ≤ x → AscendingFrom lo xs → AscendingFrom lo (insert_index x xs)
insert_index-AscendingFrom lo x [] h s = (h, tt)
insert_index-AscendingFrom lo x (y ∷ ys) h s = elim (Bool-cases (ltb x y)) [
  | inl below ↦ rw below (h, (omega (arith, ltb→lt x y below), s.1))
  | inr above ↦ elim (Bool-cases (x == y)) [
    | inl same ↦ rw (above, same) s
    | inr apart ↦
        rw (above, apart)
          (s.0, insert_index-AscendingFrom (y + 1) x ys (ground (arith, above, apart)) s.1)
  ]
]

pub sorted_set-AscendingFrom : (xs : List ℕ) → AscendingFrom 0 (sorted_set xs)
unfolding sorted_set
sorted_set-AscendingFrom [] = tt
sorted_set-AscendingFrom (x ∷ xs) =
    insert_index-AscendingFrom 0 x (sorted_set xs) (omega arith) (sorted_set-AscendingFrom xs)

mem_nat-insert_index :
    (a x : ℕ) (xs : List ℕ) → mem_nat a (insert_index x xs) ≡ (a == x || mem_nat a xs)
mem_nat-insert_index a x [] = ground arith
mem_nat-insert_index a x (y ∷ ys) = ground (arith, mem_nat-insert_index a x ys)

pub mem_nat-sorted_set : (a : ℕ) (xs : List ℕ) → mem_nat a (sorted_set xs) ≡ mem_nat a xs
unfolding sorted_set
mem_nat-sorted_set a [] = refl
mem_nat-sorted_set a (x ∷ xs) =
    rw (mem_nat-insert_index a x (sorted_set xs), mem_nat-sorted_set a xs)

AscendingFrom-le :
    (from a : ℕ) (xs : List ℕ) → AscendingFrom from xs → mem_nat a xs ≡ true → from ≤ a
AscendingFrom-le from a [] s h = ground arith
AscendingFrom-le from a (x ∷ xs) s h = ground (arith, AscendingFrom-le (x + 1) a xs s.1)

module _ (pcie : ℕ → ℕ → String) (switch : ℕ → ℕ) (counts : ℕ → ℕ → ℕ) where
  abbrev fact : ℕ → ℕ → TopologyEdge
  fact = topology_edge pcie switch counts

  find_edge-other :
      (lo hi a : ℕ) (bs : List ℕ) (rest : List TopologyEdge)
      → (a == lo) ≡ false
      → find_edge lo hi (edges_from fact a bs ++ rest) ≡ find_edge lo hi rest
  unfolding find_edge
  find_edge-other lo hi a [] rest h = refl
  find_edge-other lo hi a (b ∷ bs) rest h = rw (h, find_edge-other lo hi a bs rest h)

  find_edge-hit :
      (a hi : ℕ) (bs : List ℕ) (rest : List TopologyEdge)
      → mem_nat hi bs ≡ true
      → find_edge a hi (edges_from fact a bs ++ rest) ≡ some (fact a hi)
  unfolding find_edge
  find_edge-hit a hi [] rest h = ground arith
  find_edge-hit a hi (b ∷ bs) rest h = ground (arith, find_edge-hit a hi bs rest, ==_refl a)

  find_edge-all_edges :
      (from lo hi : ℕ) (xs : List ℕ)
      → AscendingFrom from xs
      → lo < hi
      → mem_nat lo xs ≡ true
      → mem_nat hi xs ≡ true
      → find_edge lo hi (all_edges fact xs) ≡ some (fact lo hi)
  unfolding all_edges
  find_edge-all_edges from lo hi [] s lt inlo inhi = ground arith
  find_edge-all_edges from lo hi (x ∷ xs) s lt inlo inhi = elim (Bool-cases (x == lo)) [
    | inl first ↦
        let e : x ≡ lo = ground arith in
        let in_rest : mem_nat hi xs ≡ true = ground arith in
        rw e (find_edge-hit lo hi xs (all_edges fact xs) in_rest)
    | inr later ↦
        let lo_rest : mem_nat lo xs ≡ true = ground arith in
        let above = AscendingFrom-le (x + 1) lo xs s.1 lo_rest in
        let hi_rest : mem_nat hi xs ≡ true = ground arith in
        rw (find_edge-other lo hi x xs (all_edges fact xs) later)
          (find_edge-all_edges (x + 1) lo hi xs s.1 lt lo_rest hi_rest)
  ]

-- The topology that `build_topology` assembles has, for two GPUs of its indices, whatever their order
-- and however often they are listed, one set of facts: looking up `(a, b)` or `(b, a)`
-- gives the edge made of the PCIe relationship and the links of the pair with the smaller index
-- first.
pub edge-build_topology :
    (indices : List ℕ) (pcie : ℕ → ℕ → String) (counts : ℕ → ℕ → ℕ) (switch : ℕ → ℕ) (a b : ℕ)
    → a < b
    → mem_nat a indices ≡ true
    → mem_nat b indices ≡ true
    → let t = build_topology indices pcie counts switch in
      (edge t a b ≡ some (topology_edge pcie switch counts a b)) × (edge t b a ≡ edge t a b)
unfolding edge build_topology
edge-build_topology indices pcie counts switch a b lt ina inb =
    let found =
      find_edge-all_edges pcie switch counts 0 a b (sorted_set indices)
        (sorted_set-AscendingFrom indices) lt (rw (mem_nat-sorted_set a indices) ina)
        (rw (mem_nat-sorted_set b indices) inb) in
    let up : ltb a b ≡ true = ground arith in
    let down : ltb b a ≡ false = ground arith in rw (up, down) (found, refl)
