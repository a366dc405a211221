-- ===== src/Planner/Groups/Local.antt =====
-- planner/gpu_groups.py, `plan`: the machines of the groups.
use open_baseten_inference.Prelude.{
  ℕ, zero, suc, ◌*◌, ◌/◌, ◌≤◌, ◌≡◌, refl, ap, Bool, false, Option, none, some, List, [], ◌∷◌, arith,
  ltb, ◌==◌, keep, take, mem_nat, Distinct, length, All, All-append, All-map, if_intro, if_cases,
  Bool-cases, inl, inr,
}
use open_baseten_inference.Schemas.Hardware.{HardwareSnapshot}
use open_baseten_inference.Planner.Groups.{
  Node, node_in, same_node, sorted, nodes_of, on_node, append_groups, per_node, enough, plan,
  plan_together,
}
use open_baseten_inference.Planner.Groups.Carve.{Carved, total, sum_by-sorted}
use open_baseten_inference.Planner.Groups.Together.{Planned, plan_together-Planned, Distinct-sorted}
use open_baseten_inference.Planner.Groups.Nodes.{
  OnNode, Local, off_node, on_node-off, zero-OnNode, OnNode-zero, same_node_refl, nodes_of-known,
  one_node-OnNode,
}

total-Local :
    (s : HardwareSnapshot) (n : Node) (gs : List (List ℕ))
    → total (off_node s n) gs ≡ 0
    → All (Local s) gs
total-Local s n [] h = tt
total-Local s n (g ∷ gs) h =
    ((n, zero-OnNode s n g (omega arith)), total-Local s n gs (omega arith))

Carved-Local :
    (s : HardwareSnapshot) (n : Node) (tp : ℕ) (ids : List ℕ) (gs : List (List ℕ))
    → Carved tp ids gs
    → OnNode s n ids
    → All (Local s) gs
Carved-Local s n tp ids gs c h =
    total-Local s n gs (omega (arith, c.within (off_node s n), OnNode-zero s n ids h))

-- groups of `tp` GPUs on one machine each, if there are any
abbrev pub GroupOf : HardwareSnapshot → ℕ → List ℕ → Type 0
GroupOf s tp g = Local s g × (length g ≡ tp)

abbrev AllLocal : HardwareSnapshot → ℕ → Option (List (List ℕ)) → Type 0
AllLocal s tp none = Unit
AllLocal s tp (some gs) = All (GroupOf s tp) gs

both :
    (s : HardwareSnapshot) (tp : ℕ) (gs : List (List ℕ))
    → All (Local s) gs
    → All (λ g. length g ≡ tp) gs
    → All (GroupOf s tp) gs
both s tp [] p q = tt
both s tp (g ∷ gs) p q = ((p.0, q.0), both s tp gs p.1 q.1)

on_node-OnNode : (s : HardwareSnapshot) (n : Node) (ids : List ℕ) → OnNode s n (on_node s n ids)
on_node-OnNode s n ids = zero-OnNode s n (on_node s n ids) (on_node-off s n ids)

Planned-Local :
    (s : HardwareSnapshot) (n : Node) (tp k : ℕ) (ids : List ℕ) (o : Option (List (List ℕ)))
    → Planned tp k ids o
    → OnNode s n ids
    → AllLocal s tp o
Planned-Local s n tp k ids none p h = tt
Planned-Local s n tp k ids (some gs) p h = both s tp gs (Carved-Local s n tp ids gs p.1 h) p.1.sizes

append-Local :
    (s : HardwareSnapshot) (tp : ℕ) (a b : Option (List (List ℕ)))
    → AllLocal s tp a
    → AllLocal s tp b
    → AllLocal s tp (append_groups a b)
append-Local s tp none b p q = tt
append-Local s tp (some xs) none p q = tt
append-Local s tp (some xs) (some ys) p q = All-append (GroupOf s tp) xs ys p q

mem_nat-keep :
    (t : ℕ → Bool) (x : ℕ) (xs : List ℕ) → mem_nat x xs ≡ false → mem_nat x (keep t xs) ≡ false
mem_nat-keep t x [] h = refl
mem_nat-keep t x (y ∷ ys) h = ground (arith, mem_nat-keep t x ys)

Distinct-keep : (t : ℕ → Bool) (xs : List ℕ) → Distinct xs → Distinct (keep t xs)
Distinct-keep t [] d = d
Distinct-keep t (x ∷ xs) d =
    if_intro Distinct (t x) (mem_nat-keep t x xs d.0, Distinct-keep t xs d.1)
      (Distinct-keep t xs d.1)

per_node-Local :
    (s : HardwareSnapshot) (tp : ℕ) (ids : List ℕ) (ns : List Node)
    → 1 ≤ tp
    → Distinct ids
    → AllLocal s tp (per_node s tp ids ns)
unfolding per_node
per_node-Local s tp ids [] pos d = tt
per_node-Local s tp ids (n ∷ ns) pos d =
    let node_ids = on_node s n ids in
    let fit = length node_ids / tp in
    let rest = per_node-Local s tp ids ns pos d in
    if_intro (AllLocal s tp) (fit == 0) rest (
      append-Local s tp (plan_together s tp fit node_ids) (per_node s tp ids ns)
        (Planned-Local s n tp fit node_ids (plan_together s tp fit node_ids)
          (plan_together-Planned s tp fit pos node_ids
            (Distinct-keep (λ i. same_node n (node_in s.gpus i)) ids d))
          (on_node-OnNode s n ids))
        rest)

All-take :
    (s : HardwareSnapshot) (tp k : ℕ) (gs : List (List ℕ))
    → All (GroupOf s tp) gs
    → All (GroupOf s tp) (take k gs)
All-take s tp zero gs p = tt
All-take s tp (suc k) [] p = tt
All-take s tp (suc k) (g ∷ gs) p = (p.0, All-take s tp k gs p.1)

length-take_groups : (k : ℕ) (gs : List (List ℕ)) → k ≤ length gs → length (take k gs) ≡ k
length-take_groups zero gs h = refl
length-take_groups (suc k) [] h = absurd (omega arith)
length-take_groups (suc k) (g ∷ gs) h = ap suc (length-take_groups k gs (omega arith))

-- `n` groups of `tp` GPUs, each on one machine, if `plan` returns
abbrev pub OneMachineEach : HardwareSnapshot → ℕ → ℕ → Option (List (List ℕ)) → Type 0
OneMachineEach s tp n none = Unit
OneMachineEach s tp n (some gs) = All (λ g. Local s g × (length g ≡ tp)) gs × (length gs ≡ n)

enough-Local :
    (s : HardwareSnapshot) (tp k : ℕ) (o : Option (List (List ℕ)))
    → AllLocal s tp o
    → OneMachineEach s tp k (enough k o)
enough-Local s tp k none p = tt
enough-Local s tp k (some gs) p = elim (Bool-cases (ltb (length gs) k)) [
  | inl few ↦ rw few tt
  | inr many ↦ rw many (All-take s tp k gs p, length-take_groups k gs (ground (arith, many)))
]

Planned-OneMachineEach :
    (s : HardwareSnapshot) (tp n : ℕ) (ids : List ℕ) (o : Option (List (List ℕ)))
    → Planned tp n ids o
    → AllLocal s tp o
    → OneMachineEach s tp n o
Planned-OneMachineEach s tp n ids none p q = tt
Planned-OneMachineEach s tp n ids (some gs) p q = (q, p.2)

single-Local : (s : HardwareSnapshot) (g : List ℕ) → length g ≡ 1 → Local s g
single-Local s [] h = absurd (omega arith)
single-Local s (i ∷ []) h = (node_in s.gpus i, (same_node_refl (node_in s.gpus i), tt))
single-Local s (i ∷ j ∷ g) h = absurd (omega arith)

singles-Local :
    (s : HardwareSnapshot) (k : ℕ) (ids : List ℕ) (o : Option (List (List ℕ)))
    → Planned 1 k ids o
    → AllLocal s 1 o
singles-Local s k ids none p = tt
singles-Local s k ids (some gs) p =
    All-map (λ g. length g ≡ 1) (GroupOf s 1) (λ g h. (single-Local s g h, h)) gs p.1.sizes

module _ (before : Node → Node → Bool) (s : HardwareSnapshot) (n : ℕ) (gpu_ids : List ℕ)
    (different : Distinct gpu_ids) where
  -- all GPUs on one node, given in any order
  sorted-OnNode : (m : Node) → OnNode s m (sorted gpu_ids) → OnNode s m gpu_ids
  sorted-OnNode m h =
      zero-OnNode s m gpu_ids
        (omega (arith, OnNode-zero s m (sorted gpu_ids) h, sum_by-sorted (off_node s m) gpu_ids))

  together-Local :
      (tp : ℕ)
      → 1 ≤ tp
      → length (nodes_of before s (sorted gpu_ids)) ≤ 1
      → OneMachineEach s tp n (plan_together s tp n gpu_ids)
  together-Local tp pos few =
      let (m, on) =
        one_node-OnNode s (nodes_of before s (sorted gpu_ids)) (sorted gpu_ids) few
          (nodes_of-known before s (sorted gpu_ids)) in
      let p = plan_together-Planned s tp n pos gpu_ids different in
      Planned-OneMachineEach s tp n gpu_ids (plan_together s tp n gpu_ids) p
        (Planned-Local s m tp n gpu_ids (plan_together s tp n gpu_ids) p (sorted-OnNode m on))

  single-OneMachineEach : (tp : ℕ) → tp ≡ 1 → OneMachineEach s tp n (plan_together s tp n gpu_ids)
  single-OneMachineEach tp one = rw one (
      let p = plan_together-Planned s 1 n (omega arith) gpu_ids different in
      Planned-OneMachineEach s 1 n gpu_ids (plan_together s 1 n gpu_ids) p
        (singles-Local s n gpu_ids (plan_together s 1 n gpu_ids) p))

  -- Unless groups may span machines, the groups that `plan` returns for different GPUs are
  -- `replica_count` groups of `tp_size` GPUs, and the GPUs of each group are on one machine.
  pub plan-OneMachineEach :
      (tp : ℕ) → 1 ≤ tp → OneMachineEach s tp n (plan before s tp n gpu_ids false)
  unfolding plan
  plan-OneMachineEach tp pos =
      let ids = sorted gpu_ids in
      let nodes = nodes_of before s ids in
      if_intro (OneMachineEach s tp n) (ltb (length ids) (tp * n)) tt (
        if_cases (OneMachineEach s tp n) (tp == 1)
          (λ one. single-OneMachineEach tp (ground (arith, one)))
          (λ more.
            if_cases (OneMachineEach s tp n) (ltb 1 (length nodes))
              (λ many.
                enough-Local s tp n (per_node s tp ids nodes)
                  (per_node-Local s tp ids nodes pos (Distinct-sorted gpu_ids different)))
              (λ few. together-Local tp pos (ground (arith, few)))))
