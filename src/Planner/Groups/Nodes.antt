-- ===== src/Planner/Groups/Nodes.antt =====
-- planner/gpu_groups.py, `_plan_per_node`: the nodes of the GPUs.
use open_baseten_inference.Prelude.{
  ℕ, ◌≤◌, ◌≡◌, refl, ap, Bool, true, any, none, some, List, [], ◌∷◌, arith, if◌then◌else◌, length,
  sum_by, All, All-map, if_intro, Bool-cases, inl, inr, eq_iff,
}
use open_baseten_inference.Schemas.Hardware.{HardwareSnapshot}
use open_baseten_inference.Planner.Groups.{Node, node_in, same_node, insert_node, nodes_of, on_node}

-- every GPU of the group is on the node
abbrev pub OnNode : HardwareSnapshot → Node → List ℕ → Type 0
OnNode s n g = All (λ i. same_node n (node_in s.gpus i) ≡ true) g

abbrev pub Local : HardwareSnapshot → List ℕ → Type 0
Local s g = (n : Node) × OnNode s n g

-- 0 on the GPUs of the node and 1 elsewhere
abbrev pub off_node : HardwareSnapshot → Node → ℕ → ℕ
off_node s n i = if same_node n (node_in s.gpus i) then 0 else 1

pub on_node-off :
    (s : HardwareSnapshot) (n : Node) (ids : List ℕ) → sum_by (off_node s n) (on_node s n ids) ≡ 0
on_node-off s n [] = refl
on_node-off s n (i ∷ ids) = ground (arith, on_node-off s n ids)

pub zero-OnNode :
    (s : HardwareSnapshot) (n : Node) (g : List ℕ) → sum_by (off_node s n) g ≡ 0 → OnNode s n g
zero-OnNode s n [] h = tt
zero-OnNode s n (i ∷ g) h = (ground arith, zero-OnNode s n g (ground arith))

pub OnNode-zero :
    (s : HardwareSnapshot) (n : Node) (g : List ℕ) → OnNode s n g → sum_by (off_node s n) g ≡ 0
OnNode-zero s n [] p = refl
OnNode-zero s n (i ∷ g) p = rw p.0 (omega (arith, OnNode-zero s n g p.1))

pub same_node_refl : (n : Node) → same_node n n ≡ true
same_node_refl none = refl
same_node_refl (some none) = refl
same_node_refl (some (some x)) = (eq_iff x x).1 refl

same_node-eq : (n m : Node) → same_node n m ≡ true → n ≡ m
same_node-eq none none h = refl
same_node-eq none (some b) h = absurd (cc)
same_node-eq (some a) none h = absurd (cc)
same_node-eq (some none) (some none) h = refl
same_node-eq (some none) (some (some b)) h = absurd (cc)
same_node-eq (some (some a)) (some none) h = absurd (cc)
same_node-eq (some (some a)) (some (some b)) h = ap (λ x. some (some x)) ((eq_iff a b).0 h)

-- the node is among the nodes
abbrev pub known : List Node → Node → Bool
known ms n = any (λ m. same_node m n) ms

insert_node-known :
    (before : Node → Node → Bool) (n : Node) (ms : List Node)
    → known (insert_node before n ms) n ≡ true
insert_node-known before n [] = rw (same_node_refl n) refl
insert_node-known before n (m ∷ ms) = elim (Bool-cases (same_node n m)) [
  | inl e ↦ rw e (rw (same_node-eq n m e) (rw (same_node_refl m) refl))
  | inr e ↦ rw e (
      if_intro (λ l. known l n ≡ true) (before n m) {x = n ∷ m ∷ ms}
        {y = m ∷ insert_node before n ms} (rw (same_node_refl n) refl)
        (ground (arith, insert_node-known before n ms)))
]

insert_node-keeps :
    (before : Node → Node → Bool) (n x : Node) (ms : List Node)
    → known ms x ≡ true
    → known (insert_node before n ms) x ≡ true
insert_node-keeps before n x [] h = absurd (cc)
insert_node-keeps before n x (m ∷ ms) h = ground (arith, insert_node-keeps before n x ms)

pub nodes_of-known :
    (before : Node → Node → Bool) (s : HardwareSnapshot) (ids : List ℕ)
    → All (λ i. known (nodes_of before s ids) (node_in s.gpus i) ≡ true) ids
unfolding nodes_of
nodes_of-known before s [] = tt
nodes_of-known before s (i ∷ ids) = (
  insert_node-known before (node_in s.gpus i) (nodes_of before s ids),
  All-map (λ j. known (nodes_of before s ids) (node_in s.gpus j) ≡ true) _
      (λ j. insert_node-keeps before (node_in s.gpus i) (node_in s.gpus j) (nodes_of before s ids))
      ids (nodes_of-known before s ids),
)

-- With at most one node, all GPUs are on the same one.
pub one_node-OnNode :
    (s : HardwareSnapshot) (ms : List Node) (ids : List ℕ)
    → length ms ≤ 1
    → All (λ i. known ms (node_in s.gpus i) ≡ true) ids
    → (n : Node) × OnNode s n ids
one_node-OnNode s [] [] h p = (none, tt)
one_node-OnNode s [] (i ∷ ids) h p = absurd (let e = p.0 in cc)
one_node-OnNode s (m ∷ []) ids h p =
    (m, All-map (λ i. known (m ∷ []) (node_in s.gpus i) ≡ true) _ (λ i e. ground (arith, e)) ids p)
one_node-OnNode s (m ∷ l ∷ ms) ids h p = absurd (omega arith)
