-- ===== src/Runtime/Semaphore/Permits.antt =====
-- `asyncio.Semaphore`: its permits and those of its waiters.
use open_baseten_inference.Prelude.{
  ℕ, zero, suc, ◌+◌, ◌-◌, ◌<◌, ◌≡◌, ◌⊎◌, refl, Bool, true, false, none, some, List, [], ◌∷◌, arith,
  length, remove_at, get_elem?, sum_by, sum_by-remove_at, length-remove_at, Option-cases, inl, inr,
}
use open_baseten_inference.Runtime.Semaphore.{
  Semaphore, grant_first, release, wake_while, leave, abandon,
}

abbrev pub as_number : Bool → ℕ
as_number true = 1
as_number false = 0

abbrev pub as_pending : Bool → ℕ
as_pending true = 0
as_pending false = 1

-- futures that hold a permit, and futures that wait for one
abbrev pub granted : List Bool → ℕ
granted = sum_by as_number

abbrev pub pending : List Bool → ℕ
pending = sum_by as_pending

-- No lost wake-up: beside a free permit nobody waits for one, unless a future that has one is about
-- to run, which hands the free permits on.
abbrev pub IsFair : Semaphore → Type 0
IsFair s = 0 < s.value → (pending s.waiters ≡ 0) ⊎ (0 < granted s.waiters)

abbrev pub permits : Semaphore → ℕ
permits s = s.value + granted s.waiters

grant_first-some :
    (ws us : List Bool)
    → grant_first ws ≡ some us
    → (granted us ≡ granted ws + 1) × (pending us + 1 ≡ pending ws) × (length us ≡ length ws)
grant_first-some [] us h = absurd (cc)
grant_first-some (true ∷ ws) us h = elim (Option-cases (grant_first ws)) [
  | inl e ↦ ground arith
  | inr (vs, e) ↦ ground (arith, grant_first-some ws vs e)
]
grant_first-some (false ∷ ws) us h = ground arith

grant_first-none : (ws : List Bool) → grant_first ws ≡ none → pending ws ≡ 0
grant_first-none [] h = refl
grant_first-none (true ∷ ws) h = ground (arith, grant_first-none ws)
grant_first-none (false ∷ ws) h = absurd (cc)

-- `release` adds one permit, keeps the queue's length and loses no wake-up.
pub release-permits :
    (s : Semaphore)
    → IsFair s
    → (permits (release s) ≡ permits s + 1)
      × (length (release s).waiters ≡ length s.waiters)
      × IsFair (release s)
unfolding release
release-permits s f = elim (Option-cases (grant_first s.waiters)) [
  | inl e ↦ ground (arith, grant_first-none s.waiters e)
  | inr (us, e) ↦ ground (arith, grant_first-some s.waiters us e)
]

wake_while-permits :
    (n : ℕ) (s : Semaphore)
    → s.value ≡ n
    → (permits (wake_while n s) ≡ permits s)
      × (length (wake_while n s).waiters ≡ length s.waiters)
      × IsFair (wake_while n s)
unfolding wake_while
wake_while-permits zero s h = ground arith
wake_while-permits (suc n) s h = elim (Option-cases (grant_first s.waiters)) [
  | inl e ↦ ground (arith, grant_first-none s.waiters e)
  | inr (us, e) ↦
      let next : Semaphore = record { value = s.value - 1; waiters = us } in
      rw (e, wake_while)
        (ground (arith, grant_first-some s.waiters us e, wake_while-permits n next (omega arith)))
]

-- A task that runs again takes its permit with it, and the queue is one shorter.
pub leave-permits :
    (i : ℕ) (s : Semaphore) (done : Bool)
    → get_elem? s.waiters i ≡ some done
    → (permits (leave i s) + as_number done ≡ permits s)
      × (length (leave i s).waiters + 1 ≡ length s.waiters)
      × IsFair (leave i s)
unfolding leave
leave-permits i s done h = ground (
  arith,
  sum_by-remove_at as_number s.waiters i h,
  length-remove_at s.waiters i h,
  wake_while-permits s.value (record s { waiters = remove_at s.waiters i }) refl,
)

-- A cancelled task leaves every permit in the semaphore.
pub abandon-permits :
    (i : ℕ) (s : Semaphore) (done : Bool)
    → get_elem? s.waiters i ≡ some done
    → (permits (abandon i done s) ≡ permits s)
      × (length (abandon i done s).waiters + 1 ≡ length s.waiters)
      × IsFair (abandon i done s)
unfolding abandon
abandon-permits i s true h =
    ground (arith, leave-permits i (record s { value = s.value + 1 }) true h)
abandon-permits i s false h = ground (arith, leave-permits i s false h)
