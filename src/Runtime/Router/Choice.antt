-- ===== src/Runtime/Router/Choice.antt =====
-- runtime/router.py, `select`: the replica that it returns.
use mathlib.Core.List.{Memᴰ}
use open_baseten_inference.Prelude.{
  keep, ℕ, ◌≡◌, refl, true, false, not, List, [], ◌∷◌, arith, String, All, All-keep, All-map,
  All-keep_test, All-mem, ap, sym, ◌∙◌, map,
}
use open_baseten_inference.Schemas.Runtime.{ReplicaState, is_healthy}
use open_baseten_inference.Runtime.Policies.{Candidate, RoutingPolicy}
use open_baseten_inference.Runtime.Policies.Choice.{select_policy-some}
use open_baseten_inference.Runtime.Router.{
  ReplicaRouter, ok, err, RouteError, no_healthy_replica, objects, mem_str, candidates, pick,
  chosen, select,
}

-- the references that the dict holds
abbrev pub refs : List (String × ℕ) → List ℕ
refs = map (λ e. e.1)

-- Why a replica may be given a request.
pub record IsEligible (excluded : List String) (s : ReplicaRouter) (ref : ℕ) : Type 0 where
  pub registered : Memᴰ ref (refs s.replicas)
  pub healthy : is_healthy (s.heap ref) ≡ true
  pub not_excluded : mem_str (s.heap ref).id excluded ≡ false

objects-All :
    (heap : ℕ → ReplicaState) (all m : List (String × ℕ))
    → ((ref : ℕ) → Memᴰ ref (refs m) → Memᴰ ref (refs all))
    → All (λ c. Memᴰ c.0 (refs all) × (c.1 ≡ heap c.0)) (objects heap m)
objects-All heap all [] sub = tt
objects-All heap all ((id, r) ∷ m) sub =
    ((sub r (Memᴰ.head refl), refl), objects-All heap all m (λ ref h. sub ref (Memᴰ.tail h)))

-- Each candidate is a registered object, passes the filters, and is seen as it is on the heap.
abbrev IsSound : List String → ReplicaRouter → Candidate → Type 0
IsSound excluded s c =
    Memᴰ c.0 (refs s.replicas)
    × (c.1 ≡ s.heap c.0)
    × (is_healthy c.1 ≡ true)
    × (not (mem_str (c.1).id excluded) ≡ true)

All-zip {ℓ κ κ'} :
    {A : Type ℓ} (P : A → Type κ) (Q : A → Type κ') (xs : List A)
    → All P xs
    → All Q xs
    → All (λ x. P x × Q x) xs
All-zip P Q [] p q = tt
All-zip P Q (x ∷ xs) p q = ((p.0, q.0), All-zip P Q xs p.1 q.1)

candidates-IsSound :
    (excluded : List String) (s : ReplicaRouter) → All (IsSound excluded s) (candidates excluded s)
unfolding candidates
candidates-IsSound excluded s =
    let all = objects s.heap s.replicas in
    let test = λ (c : Candidate). is_healthy c.1 in
    let free = λ (c : Candidate). not (mem_str (c.1).id excluded) in
    let base = λ (c : Candidate). Memᴰ c.0 (refs s.replicas) × (c.1 ≡ s.heap c.0) in
    let healthy = λ (c : Candidate). test c ≡ true in
    let both = λ (c : Candidate). base c × healthy c in
    let h0 = All-keep base test all (objects-All s.heap s.replicas s.replicas (λ ref m. m)) in
    let h1 =
      All-keep both free (keep test all)
        (All-zip base healthy (keep test all) h0 (All-keep_test test all)) in
    All-map (λ c. both c × (free c ≡ true)) (IsSound excluded s)
      (λ c p. ((p.0).0.0, (p.0).0.1, (p.0).1, p.1)) (keep free (keep test all))
      (All-zip both (λ c. free c ≡ true) (keep free (keep test all)) h1
        (All-keep_test free (keep test all)))

pick-Memᴰ :
    (p : RoutingPolicy) (cs : List Candidate) (ref : ℕ)
    → (pick p cs).0 ≡ ok ref
    → (c : Candidate) × Memᴰ c cs × (c.0 ≡ ref)
pick-Memᴰ p [] ref h = absurd (cc)
pick-Memᴰ p (c ∷ cs) ref h =
    let (d, e, m) = select_policy-some p c cs in
    let at : ok d.0 ≡ ok ref = ap chosen (sym e) ∙ h in (d, m, cc at)

-- `select` returns only a registered, healthy replica whose id is not excluded.
pub select-IsEligible :
    (excluded : List String) (s : ReplicaRouter) (ref : ℕ)
    → (select excluded s).0 ≡ ok ref
    → IsEligible excluded s ref
unfolding select
select-IsEligible excluded s ref h =
    let (c, m, e) = pick-Memᴰ s.policy (candidates excluded s) ref h in
    let p =
      All-mem (IsSound excluded s) (candidates excluded s) (candidates-IsSound excluded s) m in
    rw (← e) (record {
      registered = p.0;
      healthy = rw (← p.1) p.2;
      not_excluded = rw (← p.1) (ground (arith, p.3));
    })

pick-total :
    (p : RoutingPolicy) (cs : List Candidate) (e : RouteError)
    → (pick p cs).0 ≡ err e
    → (cs ≡ []) × (e ≡ no_healthy_replica)
pick-total p [] e h = (refl, cc)
pick-total p (c ∷ cs) e h =
    let (d, e', m) = select_policy-some p c cs in
    let at : ok d.0 ≡ err e = ap chosen (sym e') ∙ h in absurd (cc at)

-- `select` raises only `NoHealthyReplicaError`, and only when no replica is a candidate.
pub select-total :
    (excluded : List String) (s : ReplicaRouter) (e : RouteError)
    → (select excluded s).0 ≡ err e
    → (candidates excluded s ≡ []) × (e ≡ no_healthy_replica)
unfolding select
select-total excluded s e h = pick-total s.policy (candidates excluded s) e h
