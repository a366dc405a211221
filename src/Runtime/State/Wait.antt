-- ===== src/Runtime/State/Wait.antt =====
-- runtime/state.py: the waits of a stop end.
use open_baseten_inference.Prelude.{
  zero, suc, ℕ, ◌≡◌, ◌≤◌, Bool, false, ◌&&◌, if_cases, ◌+◌, ltb, arith,
}
use open_baseten_inference.Runtime.State.{Os, wait}

module _ (o : Os) where
  -- Where a sleep of 25 ticks takes 25 ticks or more, and with fuel up to the deadline, a wait is over
  -- when the fuel is used up: its deadline has passed or what it waits for has happened.
  pub wait-ends :
      (running : o.World → Bool) (deadline fuel : ℕ) (w : o.World)
      → ((v : o.World) → o.monotonic v + 25 ≤ o.monotonic (o.sleep 25 v))
      → deadline ≤ o.monotonic w + fuel
      → let v = wait o running deadline fuel w in
        (ltb (o.monotonic v) deadline && running v) ≡ false
  unfolding wait
  wait-ends running deadline zero w slept enough = ground arith
  wait-ends running deadline (suc fuel) w slept enough =
      if_cases (λ v. (ltb (o.monotonic v) deadline && running v) ≡ false)
        (ltb (o.monotonic w) deadline && running w)
        (λ e. wait-ends running deadline fuel (o.sleep 25 w) slept (later (slept w))) (λ e. e)
    where
      later :
          o.monotonic w + 25 ≤ o.monotonic (o.sleep 25 w)
          → deadline ≤ o.monotonic (o.sleep 25 w) + fuel
      later h = omega arith
