-- ===== src/Runtime/Health/Budget.antt =====
-- runtime/health.py, `_handle_dead`: the restart budget over time.
use open_baseten_inference.Prelude.{
  ℕ, ◌+◌, ◌≤◌, ◌<◌, ◌≡◌, refl, true, ◌&&◌, Option, none, some, List, [], ◌∷◌, ◌++◌, arith, String,
  leb, length, length-append, sum_by, sum_by-append, if◌then◌else◌, ==_refl, Bool-cases, inl, inr,
  le_or_lt,
}
use mathlib.Core.List.{append-nil, append_assoc}
use open_baseten_inference.Runtime.Router.{ReplicaRouter}
use open_baseten_inference.Runtime.Health.{Replica, HealthChecker, forget_old, handle_dead}

-- how many of the times are `a` or later; how many lie in `[a, b]`
abbrev pub count_from : ℕ → List ℕ → ℕ
count_from a = sum_by (λ t. if leb a t then 1 else 0)

abbrev pub count_in : ℕ → ℕ → List ℕ → ℕ
count_in a b = sum_by (λ t. if leb a t && leb t b then 1 else 0)

count_in-le : (a b : ℕ) (ts : List ℕ) → count_in a b ts ≤ count_from a ts
count_in-le a b [] = omega arith
count_in-le a b (t ∷ ts) = ground (arith, count_in-le a b ts)

count_from-le : (a : ℕ) (ts : List ℕ) → count_from a ts ≤ length ts
count_from-le a [] = omega arith
count_from-le a (t ∷ ts) = ground (arith, count_from-le a ts)

-- Forgetting what is older than the window keeps all that is younger.
count_from-forget_old :
    (window now a : ℕ) (ts : List ℕ)
    → now ≤ a + window
    → count_from a (forget_old window now ts) ≡ count_from a ts
unfolding forget_old
count_from-forget_old window now a [] h = refl
count_from-forget_old window now a (t ∷ ts) h =
    ground (arith, count_from-forget_old window now a ts h)

-- The deaths of one replica, at the given times: the restarts that they schedule, in order.
unfoldable pub restarts : Replica → List ℕ → HealthChecker → ReplicaRouter → List ℕ
restarts r [] c s = []
restarts r (now ∷ later) c s =
    let (attempt, c', s') = handle_dead now r r.exit_reason c s in
    let rest = restarts r later c' s' in elim attempt [ none ↦ rest | some n ↦ now ∷ rest ]

-- what one death does to the replica's deque
unfoldable pub next_times : ℕ → ℕ → ℕ → List ℕ → Option ℕ × List ℕ
next_times window most now times =
    let kept = forget_old window now times in
    if leb most (length kept)
    then (none, kept)
    else (some (length (kept ++ now ∷ [])), kept ++ now ∷ [])

handle_dead-times :
    (now : ℕ) (r : Replica) (reason : String) (c : HealthChecker) (s : ReplicaRouter)
    → c.restart_enabled ≡ true
    → let (attempt, c', s') = handle_dead now r reason c s in
      ((attempt, c'.restart_times r.index)
        ≡ next_times c.window c.max_restarts now (c.restart_times r.index))
      × (c'.window ≡ c.window)
      × (c'.max_restarts ≡ c.max_restarts)
      × (c'.restart_enabled ≡ true)
unfolding handle_dead next_times
handle_dead-times now r reason c s h =
    elim (Bool-cases
      (leb c.max_restarts (length (forget_old c.window now (c.restart_times r.index))))) [
        | inl full ↦
            rw (h, full, handle_dead, next_times) (rw (==_refl r.index) (refl, refl, refl, refl))
        | inr room ↦
            rw (h, room, handle_dead, next_times) (rw (==_refl r.index) (refl, refl, refl, refl))
      ]

-- `h` is the list of the restarts so far, and `times` the deque at the time `last`.
record InBudget (window most last : ℕ) (times h : List ℕ) : Type 0 where
  retained : (a : ℕ) → last ≤ a + window → count_from a h ≡ count_from a times
  within : (a : ℕ) → count_in a (a + window) h ≤ most

module _ (window most last now : ℕ) (times h : List ℕ) (inv : InBudget window most last times h)
    (later : last ≤ now) where
  kept-count :
      (a : ℕ) → now ≤ a + window → count_from a h ≡ count_from a (forget_old window now times)
  kept-count a near =
      omega (arith, inv.retained a (omega arith), count_from-forget_old window now a times near)

  refuse-InBudget : InBudget window most now (forget_old window now times) h
  refuse-InBudget = record { retained = kept-count; within = inv.within }

  append-within :
      length (forget_old window now times) < most
      → (a : ℕ) → count_in a (a + window) (h ++ now ∷ []) ≤ most
  append-within room a = elim (le_or_lt now (a + window)) [
    | inl near ↦ ground (
      arith,
      sum_by-append (λ t. if leb a t && leb t (a + window) then 1 else 0) h (now ∷ []),
      count_in-le a (a + window) h,
      kept-count a near,
      count_from-le a (forget_old window now times),
    )
    | inr far ↦ ground (
      arith,
      sum_by-append (λ t. if leb a t && leb t (a + window) then 1 else 0) h (now ∷ []),
      inv.within a,
    )
  ]

  append-InBudget :
      length (forget_old window now times) < most
      → InBudget window most now (forget_old window now times ++ now ∷ []) (h ++ now ∷ [])
  append-InBudget room = record {
    retained = λ a near. omega (
      arith,
      kept-count a near,
      sum_by-append (λ t. if leb a t then 1 else 0) h (now ∷ []),
      sum_by-append (λ t. if leb a t then 1 else 0) (forget_old window now times) (now ∷ []),
    );
    within = append-within room;
  }

-- The clock never goes back.
abbrev pub Ascending : ℕ → List ℕ → Type 0
Ascending last [] = Unit
Ascending last (now ∷ later) = (last ≤ now) × Ascending now later

-- What one death keeps, whether it schedules a restart or not.
abbrev Kept : ℕ → ℕ → ℕ → List ℕ → ℕ → Option ℕ × List ℕ → Type 0
Kept window most last h now (none, times) = InBudget window most now times h
Kept window most last h now (some attempt, times) =
    InBudget window most now times (h ++ now ∷ []) × (attempt ≤ most) × (1 ≤ attempt)

next_times-Kept :
    (window most last now : ℕ) (times h : List ℕ)
    → InBudget window most last times h
    → last ≤ now
    → Kept window most last h now (next_times window most now times)
unfolding next_times
next_times-Kept window most last now times h inv later =
    elim (Bool-cases (leb most (length (forget_old window now times)))) [
      | inl full ↦ rw full (refuse-InBudget window most last now times h inv later)
      | inr room ↦
          let fits : length (forget_old window now times) < most = ground arith in
          let long = length-append (forget_old window now times) (now ∷ []) in
          rw room (
            append-InBudget window most last now times h inv later fits,
            omega (arith, long),
            omega (arith, long),
          )
    ]

step-within :
    (window most last now : ℕ) (h times : List ℕ) (o : Option ℕ) (rest : List ℕ)
    → Kept window most last h now (o, times)
    → ((h' : List ℕ)
        → InBudget window most now times h'
        → (a : ℕ) → count_in a (a + window) (h' ++ rest) ≤ most)
    → (a : ℕ) → count_in a (a + window) (h ++ (elim o [ none ↦ rest | some n ↦ now ∷ rest ])) ≤ most
step-within window most last now h times none rest kept ih a = ih h kept a
step-within window most last now h times (some n) rest kept ih a =
    rw (← append_assoc h (now ∷ []) rest) (ih (h ++ now ∷ []) kept.0 a)

restarts-within :
    (r : Replica) (nows : List ℕ) (c : HealthChecker) (s : ReplicaRouter) (last : ℕ) (h : List ℕ)
    → c.restart_enabled ≡ true
    → Ascending last nows
    → InBudget c.window c.max_restarts last (c.restart_times r.index) h
    → (a : ℕ) → count_in a (a + c.window) (h ++ restarts r nows c s) ≤ c.max_restarts
unfolding restarts
restarts-within r [] c s last h on asc inv a = rw append-nil (inv.within a)
restarts-within r (now ∷ later) c s last h on asc inv a =
    let o = handle_dead now r r.exit_reason c s in
    let (same, window, most, on') = handle_dead-times now r r.exit_reason c s on in
    let kept =
      next_times-Kept c.window c.max_restarts last now (c.restart_times r.index) h inv asc.0 in
    let kept' : Kept c.window c.max_restarts last h now (o.0, o.1.restart_times r.index) =
      rw same kept in
    step-within c.window c.max_restarts last now h (o.1.restart_times r.index) o.0
      (restarts r later o.1 o.2) kept'
      (λ h' inv' a'.
        rw (window, most) at
          (restarts-within r later o.1 o.2 now h' on' asc.1 (rw (window, most) inv') a'))
      a

-- In any window of time, a checker that starts with no restart on record for a replica schedules at
-- most `max_restarts` restarts of it, whenever it finds it dead, as long as the clock does not go
-- back.
pub restarts_within_budget :
    (r : Replica) (nows : List ℕ) (c : HealthChecker) (s : ReplicaRouter) (a : ℕ)
    → c.restart_enabled ≡ true
    → c.restart_times r.index ≡ []
    → Ascending 0 nows
    → count_in a (a + c.window) (restarts r nows c s) ≤ c.max_restarts
restarts_within_budget r nows c s a on none_yet asc =
    restarts-within r nows c s 0 [] on asc
      (record { retained = λ b near. rw none_yet; within = λ b. omega arith }) a
