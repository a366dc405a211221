-- ===== src/Runtime/State/Spared.antt =====
-- runtime/state.py: what a stop leaves alone.
use mathlib.Core.List.{Memᴰ}
use open_baseten_inference.Prelude.{
  zero, suc, ℕ, ◌≡◌, Bool, true, false, not, ◌&&◌, if_intro, if_cases, List, [], ◌∷◌, ◌+◌, ltb, All,
  All-keep, All-keep_test, All-Memᴰ,
}
use open_baseten_inference.Runtime.State.{
  Message, Signal, sigterm, sigkill, ChildProcessRecord, RuntimeState, Os, process_matches, is_live,
  live_children, wait, no_children, Progress, force_stopped, terminated, stop_servepilot,
  signal_all, stop_leftovers, Stopped, stop,
}

module _ (o : Os) (s : RuntimeState) (Keeps : o.World → Type 0) where
  open o use {World, kill, kill_group, sleep}

  -- time does not end `Keeps`, nor does a signal to a recorded process that matched in such a world
  pub record IsHarmless : Type 0 where
    pub sleeps : (n : ℕ) (w : World) → Keeps w → Keeps (sleep n w)
    pub kills :
        (signal : Signal) (w : World)
        → is_live o s w ≡ true
        → Keeps w
        → Keeps (kill signal s.servepilot_pid w).1
    pub kills_group :
        (signal : Signal) (c : ChildProcessRecord) (v w : World)
        → Memᴰ c s.children
        → process_matches o c.pid c.create_time v ≡ true
        → Keeps v
        → Keeps w
        → Keeps (kill_group signal c.pid w).1

  module _ (h : IsHarmless) where
    wait-Keeps :
        (running : World → Bool) (deadline fuel : ℕ) (w : World)
        → Keeps w
        → Keeps (wait o running deadline fuel w)
    unfolding wait
    wait-Keeps running deadline zero w k = k
    wait-Keeps running deadline (suc fuel) w k =
        if_intro Keeps (ltb (o.monotonic w) deadline && running w)
          (wait-Keeps running deadline fuel (sleep 25 w) (h.sleeps 25 w k)) k

    force_stopped-Keeps :
        (pid : ℕ) (r : Bool × World) → Keeps r.1 → Keeps (force_stopped o pid r).world
    force_stopped-Keeps pid (false, w) k = k
    force_stopped-Keeps pid (true, w) k = h.sleeps 50 w k

    terminated-Keeps :
        (grace : ℕ) (r : Bool × World) → Keeps r.1 → Keeps (terminated o s grace r).world
    terminated-Keeps grace (false, w) k = k
    terminated-Keeps grace (true, w) k =
        let w' = wait o (is_live o s) (o.monotonic w + grace) grace w in
        let k' = wait-Keeps (is_live o s) (o.monotonic w + grace) grace w k in
        if_cases (λ (p : Progress o). Keeps p.world) (is_live o s w')
          (λ e.
            force_stopped-Keeps s.servepilot_pid (kill sigkill s.servepilot_pid w')
              (h.kills sigkill w' e k'))
          (λ e. k')

    stop_servepilot-Keeps :
        (grace : ℕ) (w : World) → Keeps w → Keeps (stop_servepilot o s grace w).world
    unfolding stop_servepilot
    stop_servepilot-Keeps grace w k =
        if_cases (λ (p : Progress o). Keeps p.world) (is_live o s w)
          (λ e. terminated-Keeps grace (kill sigterm s.servepilot_pid w) (h.kills sigterm w e k))
          (λ e. k)

    signal_all-Keeps :
        (signal : Signal) (cs : List ChildProcessRecord) (v w : World)
        → All (λ c. Memᴰ c s.children) cs
        → All (λ c. process_matches o c.pid c.create_time v ≡ true) cs
        → Keeps v
        → Keeps w
        → Keeps (signal_all o signal cs w).1
    unfolding signal_all
    signal_all-Keeps signal [] v w m t j k = k
    signal_all-Keeps signal (c ∷ cs) v w m t j k =
        signal_all-Keeps signal cs v (kill_group signal c.pid w).1 m.1 t.1 j
          (h.kills_group signal c v w m.0 t.0 j k)

    live-Keeps :
        (signal : Signal) (w : World)
        → Keeps w
        → Keeps (signal_all o signal (live_children o s w) w).1
    live-Keeps signal w k =
        let matches = λ (c : ChildProcessRecord). process_matches o c.pid c.create_time w in
        signal_all-Keeps signal (live_children o s w) w w
          (All-keep (λ c. Memᴰ c s.children) matches s.children (All-Memᴰ s.children))
          (All-keep_test matches s.children) k k

    stop_leftovers-Keeps : (grace : ℕ) (w : World) → Keeps w → Keeps (stop_leftovers o s grace w).1
    unfolding stop_leftovers
    stop_leftovers-Keeps grace w k =
        let w₁ = (signal_all o sigterm (live_children o s w) w).1 in
        let running = λ (v : World). not (no_children (live_children o s v)) in
        let w₂ = wait o running (o.monotonic w₁ + grace) grace w₁ in
        let k₂ = wait-Keeps running (o.monotonic w₁ + grace) grace w₁ (live-Keeps sigterm w k) in
        if_intro (λ (r : List Message × World). Keeps r.1) (no_children (live_children o s w)) k
          (live-Keeps sigkill w₂ k₂)

    -- If a property of the system outlives time and every signal to a recorded process that matched
    -- its creation time in a world with the property, then it outlives `stop`.
    pub stop-Keeps : (grace : ℕ) (w : World) → Keeps w → Keeps (stop o s grace w).world
    unfolding stop
    stop-Keeps grace w k =
        let p = stop_servepilot o s grace w in
        let k' = stop_servepilot-Keeps grace w k in
        if_intro (λ (r : Stopped o). Keeps r.world) p.finished
          (stop_leftovers-Keeps grace p.world k') k'
