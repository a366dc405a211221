-- ===== src/Planner/Groups.antt =====
-- src/servepilot/planner/gpu_groups.py: `GPUGroupPlanner`. Scores are natural numbers. The score
-- cache is left out: a score depends on the unordered pair alone. `before` is Python's order on node
-- names, for `sorted(by_node, ...)`.
pub mod Carve
pub mod Exhaustive
pub mod Found
pub mod Greedy
pub mod Nodes
pub mod Local
pub mod Together
use open_baseten_inference.Prelude.{
  ℕ, zero, suc, ◌+◌, ◌-◌, ◌*◌, ◌/◌, String, Bool, true, false, not, ◌&&◌, ◌||◌, Option, none, some,
  List, [], ◌∷◌, ◌++◌, map, ltb, leb, ◌==◌, if◌then◌else◌, str_eq, max, keep, mem_nat, take, length,
  sum_by,
}
use open_baseten_inference.Schemas.Hardware.{HardwareSnapshot, GpuDevice, topology_score}

-- `_node_of`: the last device with the index counts, and a missing key reads `none`
unfoldable pub node_in : List GpuDevice → ℕ → Option (Option String)
node_in [] i = none
node_in (g ∷ gs) i = elim (node_in gs i) [
  | some n ↦ some n
  | none ↦ if g.index == i then some g.node_id else none
]

abbrev pub same_name : Option String → Option String → Bool
same_name none none = true
same_name (some a) (some b) = str_eq a b
same_name _ _ = false

abbrev pub same_node : Option (Option String) → Option (Option String) → Bool
same_node none none = true
same_node (some a) (some b) = same_name a b
same_node _ _ = false

-- `max(1, 8 - abs(a - b))`
abbrev adjacency : ℕ → ℕ → ℕ
adjacency a b = max 1 (8 - ((a - b) + (b - a)))

unfoldable pub pair_score : HardwareSnapshot → ℕ → ℕ → ℕ
pair_score s a b =
    if not (same_node (node_in s.gpus a) (node_in s.gpus b))
    then 0
    else if not s.topology.available
    then adjacency a b
    else topology_score s.topology a b

-- `sorted`
abbrev pub insert : ℕ → List ℕ → List ℕ
insert x [] = x ∷ []
insert x (y ∷ ys) = let rest = insert x ys in if leb x y then x ∷ y ∷ ys else y ∷ rest

unfoldable pub sorted : List ℕ → List ℕ
sorted [] = []
sorted (x ∷ xs) = insert x (sorted xs)

-- the pairs of `combinations(group, 2)`, scored and summed
unfoldable pub pairs_score : HardwareSnapshot → List ℕ → ℕ
pairs_score s [] = 0
pairs_score s (a ∷ rest) = sum_by (pair_score s a) rest + pairs_score s rest

unfoldable pub group_score : HardwareSnapshot → List ℕ → ℕ
group_score s group = pairs_score s (sorted group)

unfoldable pub partition_score : HardwareSnapshot → List (List ℕ) → ℕ
partition_score s = sum_by (group_score s)

-- `itertools.combinations`
unfoldable pub combinations : ℕ → List ℕ → List (List ℕ)
combinations zero xs = [] ∷ []
combinations (suc k) [] = []
combinations (suc k) (x ∷ xs) = map (λ c. x ∷ c) (combinations k xs) ++ combinations (suc k) xs

-- the best partition so far with its score; `none` is the score -1
abbrev pub Best : Type 0
Best = Option (ℕ × List (List ℕ))

abbrev pub improve : ℕ → List (List ℕ) → Best → Best
improve score chosen none = some (score, chosen)
improve score chosen (some (top, groups)) =
    if ltb top score then some (score, chosen) else some (top, groups)

-- a `for` loop over lists that updates `best`
abbrev pub over : (List ℕ → Best → Best) → List (List ℕ) → Best → Best
over f [] best = best
over f (c ∷ cs) best = over f cs (f c best)

-- `[r for r in rest if r not in combo]`
abbrev pub without : List ℕ → List ℕ → List ℕ
without combo rest = keep (λ r. not (mem_nat r combo)) rest

-- `recurse`, on `remaining`, `chosen` and the best so far
abbrev pub Search : Type 0
Search = List ℕ → List (List ℕ) → Best → Best

-- the body of `recurse` after its first test, with its recursive calls to `again`
abbrev pub branch : ℕ → ℕ → Search → Search
branch tp_size needed again [] chosen best = best
branch tp_size needed again (anchor ∷ rest) chosen best =
    let best' =
      over (λ combo. again (without combo rest) (chosen ++ (anchor ∷ combo) ∷ []))
        (combinations (tp_size - 1) rest) best in
    if ltb (length (anchor ∷ rest)) needed
    then best
    else if ltb needed (length (anchor ∷ rest))
    then again rest chosen best'
    else best'

-- A call gives `remaining` at least one GPU less, so that its length is fuel enough.
unfoldable pub recurse : HardwareSnapshot → ℕ → ℕ → ℕ → Search
recurse s tp_size replica_count zero remaining chosen best =
    if length chosen == replica_count then improve (partition_score s chosen) chosen best else best
recurse s tp_size replica_count (suc n) remaining chosen best =
    if length chosen == replica_count
    then improve (partition_score s chosen) chosen best
    else branch tp_size (tp_size * (replica_count - length chosen))
        (recurse s tp_size replica_count n) remaining chosen best

abbrev pub groups_of : Best → Option (List (List ℕ))
groups_of none = none
groups_of (some (score, groups)) = some groups

-- `_exhaustive`; `none` is its `NoViablePlanError`
unfoldable pub exhaustive : HardwareSnapshot → ℕ → ℕ → List ℕ → Option (List (List ℕ))
exhaustive s tp_size replica_count ids =
    groups_of (recurse s tp_size replica_count (length ids) ids [] none)

-- `max(..., key=lambda i: (f(i), -i))`, with the first element given
unfoldable pub top : (ℕ → ℕ) → ℕ → List ℕ → ℕ
top f x [] = x
top f x (y ∷ ys) = if ltb (f x) (f y) || ((f x == f y) && ltb y x) then top f y ys else top f x ys

-- `remaining.remove(x)`
abbrev pub remove : ℕ → List ℕ → List ℕ
remove x [] = []
remove x (y ∷ ys) = let rest = remove x ys in if x == y then ys else y ∷ rest

-- `n` more GPUs for the group, each the best connected to it; without any left the source raises
unfoldable pub grow : HardwareSnapshot → ℕ → List ℕ → List ℕ → List ℕ × List ℕ
grow s zero group remaining = (group, remaining)
grow s (suc n) group [] = (group, [])
grow s (suc n) group (r ∷ rs) =
    let nxt = top (λ c. sum_by (pair_score s c) group) r rs in
    grow s n (group ++ nxt ∷ []) (remove nxt (r ∷ rs))

-- the key of a seed: how well it is connected to the others
abbrev pub connectivity : HardwareSnapshot → List ℕ → ℕ → ℕ
connectivity s remaining i = sum_by (pair_score s i) (keep (λ j. not (j == i)) remaining)

unfoldable pub greedy : HardwareSnapshot → ℕ → ℕ → List ℕ → List (List ℕ)
unfolding sorted
greedy s tp_size zero remaining = []
greedy s tp_size (suc n) [] = []
greedy s tp_size (suc n) (r ∷ rs) =
    let seed = top (connectivity s (r ∷ rs)) r rs in
    let (group, left) = grow s (tp_size - 1) (seed ∷ []) (remove seed (r ∷ rs)) in
    sorted group ∷ greedy s tp_size n left

-- `sorted(groups, key=lambda g: min(g))`, each group sorted, so that its minimum comes first
abbrev pub head_le : List ℕ → List ℕ → Bool
head_le (x ∷ xs) (y ∷ ys) = leb x y
head_le _ _ = true

abbrev pub insert_group : List ℕ → List (List ℕ) → List (List ℕ)
insert_group g [] = g ∷ []
insert_group g (h ∷ hs) =
    let rest = insert_group g hs in if head_le g h then g ∷ h ∷ hs else h ∷ rest

unfoldable pub tidy : List (List ℕ) → List (List ℕ)
unfolding sorted
tidy [] = []
tidy (g ∷ gs) = insert_group (sorted g) (tidy gs)

abbrev pub singletons : List ℕ → List (List ℕ)
singletons ids = map (λ i. i ∷ []) ids

-- the search of `plan`: exhaustive up to `EXHAUSTIVE_MAX_GPUS`
abbrev pub searched : HardwareSnapshot → ℕ → ℕ → List ℕ → Option (List (List ℕ))
searched s tp_size replica_count ids =
    if leb (length ids) 8
    then exhaustive s tp_size replica_count ids
    else some (greedy s tp_size replica_count ids)

abbrev pub tidied : Option (List (List ℕ)) → Option (List (List ℕ))
tidied none = none
tidied (some groups) = some (tidy groups)

-- `plan` with `allow_cross_node`; `none` is a `NoViablePlanError`
unfoldable pub plan_together : HardwareSnapshot → ℕ → ℕ → List ℕ → Option (List (List ℕ))
unfolding sorted
plan_together s tp_size replica_count gpu_ids =
    let ids = sorted gpu_ids in
    if ltb (length ids) (tp_size * replica_count)
    then none
    else if tp_size == 1
    then some (singletons (take replica_count ids))
    else tidied (searched s tp_size replica_count ids)

-- `by_node`: the nodes of the GPUs, in the order of their names
abbrev pub Node : Type 0
Node = Option (Option String)

abbrev pub insert_node : (Node → Node → Bool) → Node → List Node → List Node
insert_node before n [] = n ∷ []
insert_node before n (m ∷ ms) =
    let rest = insert_node before n ms in
    if same_node n m then m ∷ ms else if before n m then n ∷ m ∷ ms else m ∷ rest

unfoldable pub nodes_of : (Node → Node → Bool) → HardwareSnapshot → List ℕ → List Node
nodes_of before s [] = []
nodes_of before s (i ∷ ids) = insert_node before (node_in s.gpus i) (nodes_of before s ids)

abbrev pub on_node : HardwareSnapshot → Node → List ℕ → List ℕ
on_node s n ids = keep (λ i. same_node n (node_in s.gpus i)) ids

abbrev pub append_groups : Option (List (List ℕ)) → Option (List (List ℕ)) → Option (List (List ℕ))
append_groups (some xs) (some ys) = some (xs ++ ys)
append_groups _ _ = none

-- the loop of `_plan_per_node`
unfoldable pub per_node : HardwareSnapshot → ℕ → List ℕ → List Node → Option (List (List ℕ))
unfolding plan_together
per_node s tp_size ids [] = some []
per_node s tp_size ids (n ∷ ns) =
    let node_ids = on_node s n ids in
    let fit = length node_ids / tp_size in
    let rest = per_node s tp_size ids ns in
    if fit == 0 then rest else append_groups (plan_together s tp_size fit node_ids) rest

abbrev pub enough : ℕ → Option (List (List ℕ)) → Option (List (List ℕ))
enough replica_count none = none
enough replica_count (some groups) =
    if ltb (length groups) replica_count then none else some (take replica_count groups)

-- `plan`
unfoldable pub plan :
    (Node → Node → Bool) → HardwareSnapshot → ℕ → ℕ → List ℕ → Bool → Option (List (List ℕ))
unfolding sorted plan_together nodes_of per_node
plan before s tp_size replica_count gpu_ids allow_cross_node =
    let ids = sorted gpu_ids in
    let nodes = nodes_of before s ids in
    if ltb (length ids) (tp_size * replica_count)
    then none
    else if tp_size == 1
    then plan_together s tp_size replica_count gpu_ids
    else if not allow_cross_node && ltb 1 (length nodes)
    then enough replica_count (per_node s tp_size ids nodes)
    else plan_together s tp_size replica_count gpu_ids
