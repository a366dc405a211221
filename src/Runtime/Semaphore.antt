-- ===== src/Runtime/Semaphore.antt =====
-- `asyncio.Semaphore`, as the router uses it. A waiter is a future in first-in first-out order:
-- `true` once `release` has handed it a permit, although its task has not run again yet.
pub mod Permits
use mathlib.Core.Option
use open_baseten_inference.Prelude.{
  ℕ, zero, suc, ◌+◌, ◌-◌, Bool, true, false, ◌||◌, Option, none, some, List, [], ◌∷◌, ◌++◌,
  remove_at, get_elem?, ◌==◌, if◌then◌else◌,
}

pub record Semaphore : Type 0 where
  pub value : ℕ
  pub waiters : List Bool

abbrev pub semaphore : ℕ → Semaphore
semaphore value = record { value = value; waiters = [] }

abbrev has_waiters : List Bool → Bool
has_waiters [] = false
has_waiters (w ∷ ws) = true

-- no permit left, or somebody is ahead
unfoldable pub locked : Semaphore → Bool
locked s = s.value == 0 || has_waiters s.waiters

-- the first future that is not done gets a permit
abbrev pub grant_first : List Bool → Option (List Bool)
grant_first [] = none
grant_first (true ∷ ws) = Option.map (λ us. true ∷ us) (grant_first ws)
grant_first (false ∷ ws) = some (true ∷ ws)

-- `_wake_up_next`
unfoldable pub wake_next : Semaphore → Semaphore
wake_next s = elim (grant_first s.waiters) [
  | none ↦ s
  | some ws ↦ record { value = s.value - 1; waiters = ws }
]

unfoldable pub release : Semaphore → Semaphore
unfolding wake_next
release s = wake_next (record s { value = s.value + 1 })

-- `while self._value > 0: if not self._wake_up_next(): break`. A round takes one permit, so the
-- permits that are left are fuel enough.
unfoldable pub wake_while : ℕ → Semaphore → Semaphore
wake_while zero s = s
wake_while (suc n) s = elim (grant_first s.waiters) [
  | none ↦ s
  | some ws ↦ wake_while n (record { value = s.value - 1; waiters = ws })
]

-- The `finally` blocks of `acquire`: the future leaves the queue, and free permits are handed on.
unfoldable pub leave : ℕ → Semaphore → Semaphore
unfolding wake_while
leave i s = wake_while s.value (record s { waiters = remove_at s.waiters i })

-- A cancelled task whose future was done gives its permit back first.
unfoldable pub abandon : ℕ → Bool → Semaphore → Semaphore
unfolding leave
abandon i done s = leave i (if done then record s { value = s.value + 1 } else s)
