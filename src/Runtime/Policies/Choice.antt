-- ===== src/Runtime/Policies/Choice.antt =====
-- runtime/policies.py: what the policies choose.
use mathlib.Core.List.{Memᴰ}
use native.Mathlib.Nat.{mod-eq_of_lt, mul-add-mod_self_right}
use open_baseten_inference.Prelude.{
  Bool, ℕ, zero, suc, ◌+◌, ◌*◌, ◌%◌, ap, ◌∙◌, get_elem?-some, All-get_elem?, All-keep,
  All-keep_test, All-Memᴰ, ◌≤◌, ◌<◌, ◌≡◌, true, false, Option, some, List, [], ◌∷◌, arith, length,
  get_elem?, All, ◌==◌, if◌then◌else◌,
}
use open_baseten_inference.Runtime.Policies.{
  Candidate, inflight_of, RoutingPolicy, least_inflight, round_robin, minimum, ties, select_policy,
}

minimum-le-All :
    (c : Candidate) (cs : List Candidate) (n : ℕ)
    → n ≤ minimum c cs
    → All (λ d. n ≤ inflight_of d) (c ∷ cs)
unfolding minimum
minimum-le-All c [] n h = (h, tt)
minimum-le-All c (d ∷ ds) n h = (omega arith, minimum-le-All d ds n (omega arith))

-- The least value is reached, so the tied candidates are not none.
ties_nonempty : (c : Candidate) (cs : List Candidate) → 0 < length (ties (minimum c cs) (c ∷ cs))
unfolding minimum
ties_nonempty c [] = ground arith
ties_nonempty c (d ∷ ds) = ground (arith, ties_nonempty d ds)

-- What a choice promises: one of the candidates, none of which has fewer requests in flight.
abbrev pub Least : List Candidate → Candidate → Type 0
Least cs d = Memᴰ d cs × All (λ e. inflight_of d ≤ inflight_of e) cs

tied-Least :
    (c : Candidate) (cs : List Candidate) (i : ℕ)
    → i < length (ties (minimum c cs) (c ∷ cs))
    → (d : Candidate) × (get_elem? (ties (minimum c cs) (c ∷ cs)) i ≡ some d) × Least (c ∷ cs) d
tied-Least c cs i h =
    let all = c ∷ cs in
    let chosen = λ (x : Candidate). inflight_of x == minimum c cs in
    let tied = ties (minimum c cs) all in
    let (d, at) = get_elem?-some tied i h in
    let found : Memᴰ d all =
      All-get_elem? (λ y. Memᴰ y all) tied i (All-keep _ chosen all (All-Memᴰ all)) at in
    let low : (inflight_of d == minimum c cs) ≡ true =
      All-get_elem? (λ y. (inflight_of y == minimum c cs) ≡ true) tied i (All-keep_test chosen all)
        at in
    let same : inflight_of d ≤ minimum c cs = ground arith in
    (d, at, (found, minimum-le-All c cs (inflight_of d) same))

-- From replicas that are not none, the least-inflight policy chooses one of them, and none of them
-- has fewer requests in flight.
pub select_policy-Least :
    (tick : ℕ) (c : Candidate) (cs : List Candidate)
    → (d : Candidate) × ((select_policy (least_inflight tick) (c ∷ cs)).0 ≡ some d)
      × Least (c ∷ cs) d
unfolding select_policy
select_policy-Least tick c cs =
    let tied = ties (minimum c cs) (c ∷ cs) in
    pick (least_inflight tick) (least_inflight (tick + 1)) (length tied == 1)
      (tied-Least c cs 0 (ties_nonempty c cs))
      (tied-Least c cs (tick % length tied) (remainder tied (ties_nonempty c cs)))
  where
    pick :
        {P : Candidate → Type 0} {a b : Option Candidate} (p q : RoutingPolicy) (one : Bool)
        → (d : Candidate) × (a ≡ some d) × P d
        → (d : Candidate) × (b ≡ some d) × P d
        → (d : Candidate) × ((if◌then◌else◌ {A = Option Candidate × RoutingPolicy} one
              (a, p)
              (b, q)).0
            ≡ some d)
          × P d
    pick p q true l r = l
    pick p q false l r = r

    remainder : (xs : List Candidate) → 0 < length xs → tick % length xs < length xs
    remainder xs h = omega arith

-- A policy returns a candidate whenever there is one, and it is one of them.
pub select_policy-some :
    (p : RoutingPolicy) (c : Candidate) (cs : List Candidate)
    → (d : Candidate) × ((select_policy p (c ∷ cs)).0 ≡ some d) × Memᴰ d (c ∷ cs)
unfolding select_policy
select_policy-some (least_inflight tick) c cs =
    let (d, e, m) = select_policy-Least tick c cs in (d, e, m.0)
select_policy-some (round_robin tick) c cs =
    let i = tick % length (c ∷ cs) in
    let (d, at) = get_elem?-some (c ∷ cs) i (omega arith) in
    (d, at, All-get_elem? (λ y. Memᴰ y (c ∷ cs)) (c ∷ cs) i (All-Memᴰ (c ∷ cs)) at)

-- The policy after `n` selections from the same replicas.
abbrev pub after : ℕ → RoutingPolicy → List Candidate → RoutingPolicy
after zero p cs = p
after (suc n) p cs = after n (select_policy p cs).1 cs

after_round_robin :
    (n tick : ℕ) (c : Candidate) (cs : List Candidate)
    → after n (round_robin tick) (c ∷ cs) ≡ round_robin (tick + n)
unfolding select_policy
after_round_robin zero tick c cs = ap round_robin (omega arith)
after_round_robin (suc n) tick c cs =
    after_round_robin n (tick + 1) c cs ∙ ap round_robin (omega arith)

-- Round robin serves every replica: from a fresh policy over the same replicas, selection number
-- `k * length + i` takes the replica at position `i`.
pub round_robin_cycles :
    (k i : ℕ) (c : Candidate) (cs : List Candidate)
    → i < length (c ∷ cs)
    → (select_policy (after (k * length (c ∷ cs) + i) (round_robin 0) (c ∷ cs)) (c ∷ cs)).0
      ≡ get_elem? (c ∷ cs) i
unfolding select_policy
round_robin_cycles k i c cs h =
    rw (after_round_robin (k * length (c ∷ cs) + i) 0 c cs)
      (ap (get_elem? (c ∷ cs)) (wraps (length (c ∷ cs)) h))
  where
    wraps : (n : ℕ) → i < n → (0 + (k * n + i)) % n ≡ i
    wraps n h = ap (λ t. t % n) (omega arith) ∙ mul-add-mod_self_right k n i ∙ mod-eq_of_lt h
