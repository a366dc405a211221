-- ===== src/Runtime/State.antt =====
-- src/servepilot/runtime/state.py: the stop of a deployment from the state that its file records.
-- Times are ticks of a hundredth of a second. The file is a flag; reading and writing it is left out.
pub mod Spared
pub mod Wait
use open_baseten_inference.Prelude.{
  zero, suc, ℕ, Bool, true, false, not, ◌&&◌, if◌then◌else◌, String, Option, none, some, List, [],
  ◌∷◌, ◌++◌, ◌+◌, leb, ltb, keep,
}

pub data Signal : Type 0 where
  sigterm sigkill : Signal

pub record Process : Type 0 where
  pub zombie : Bool
  pub create_time : ℕ

pub record ChildProcessRecord : Type 0 where
  pub pid : ℕ
  pub create_time : ℕ
  pub replica_id : String

pub record RuntimeState : Type 0 where
  pub servepilot_pid : ℕ
  pub servepilot_create_time : ℕ
  pub children : List ChildProcessRecord

pub data Message : Type 0 where
  sent_term did_not_exit not_running : ℕ → Message
  term_leftover : ℕ → String → Message
  force_killed : ℕ → Message

-- what psutil, os and time do: `process` is none when it cannot be read, `kill`
-- and `kill_group` (of the group of a pid) say false when they raise
pub record Os : Type 1 where
  pub World : Type 0
  pub process : ℕ → World → Option Process
  pub kill : Signal → ℕ → World → Bool × World
  pub kill_group : Signal → ℕ → World → Bool × World
  pub sleep : ℕ → World → World
  pub monotonic : World → ℕ

abbrev pub no_children : List ChildProcessRecord → Bool
no_children [] = true
no_children (c ∷ cs) = false

abbrev pub create_time_tolerance : ℕ
create_time_tolerance = 200

abbrev pub created_at : ℕ → Option Process → Bool
created_at t none = false
created_at t (some p) =
    not p.zombie
    && (leb p.create_time (t + create_time_tolerance)
        && leb t (p.create_time + create_time_tolerance))

abbrev pub signal_message : Signal → ChildProcessRecord → Message
signal_message sigterm c = term_leftover c.pid c.replica_id
signal_message sigkill c = force_killed c.pid

module _ (o : Os) where
  open o use {World, process, kill, kill_group, sleep, monotonic}

  unfoldable pub process_matches : ℕ → ℕ → World → Bool
  process_matches pid create_time w = created_at create_time (process pid w)

  abbrev pub is_live : RuntimeState → World → Bool
  is_live s w = process_matches s.servepilot_pid s.servepilot_create_time w

  abbrev pub live_children : RuntimeState → World → List ChildProcessRecord
  live_children s w = keep (λ c. process_matches c.pid c.create_time w) s.children

  -- `while time.monotonic() < deadline and ...: time.sleep(0.25)`, with fuel
  unfoldable pub wait : (World → Bool) → ℕ → ℕ → World → World
  wait running deadline zero w = w
  wait running deadline (suc fuel) w =
      let rest = wait running deadline fuel (sleep 25 w) in
      if ltb (monotonic w) deadline && running w then rest else w

  -- the messages, and false when an exception leaves `stop`
  pub record Progress : Type 0 where
    pub finished : Bool
    pub messages : List Message
    pub world : World

  abbrev pub force_stopped : ℕ → Bool × World → Progress
  force_stopped pid (false, w) = record {
    finished = false;
    messages = sent_term pid ∷ [];
    world = w;
  }
  force_stopped pid (true, w) = record {
    finished = true;
    messages = sent_term pid ∷ did_not_exit pid ∷ [];
    world = sleep 50 w;
  }

  abbrev pub terminated : RuntimeState → ℕ → Bool × World → Progress
  terminated s grace (false, w) = record { finished = false; messages = []; world = w }
  terminated s grace (true, w) =
      let w' = wait (is_live s) (monotonic w + grace) grace w in
      if is_live s w'
      then force_stopped s.servepilot_pid (kill sigkill s.servepilot_pid w')
      else record { finished = true; messages = sent_term s.servepilot_pid ∷ []; world = w' }

  unfoldable pub stop_servepilot : RuntimeState → ℕ → World → Progress
  stop_servepilot s grace w =
      if is_live s w
      then terminated s grace (kill sigterm s.servepilot_pid w)
      else record { finished = true; messages = not_running s.servepilot_pid ∷ []; world = w }

  -- `except (ProcessLookupError, PermissionError): continue`
  unfoldable pub signal_all : Signal → List ChildProcessRecord → World → List Message × World
  signal_all signal [] w = ([], w)
  signal_all signal (c ∷ cs) w =
      let (sent, w₁) = kill_group signal c.pid w in
      let (messages, w₂) = signal_all signal cs w₁ in
      (if sent then signal_message signal c ∷ messages else messages, w₂)

  unfoldable pub stop_leftovers : RuntimeState → ℕ → World → List Message × World
  stop_leftovers s grace w =
      let (messages, w₁) = signal_all sigterm (live_children s w) w in
      let w₂ = wait (λ v. not (no_children (live_children s v))) (monotonic w₁ + grace) grace w₁ in
      let (more, w₃) = signal_all sigkill (live_children s w₂) w₂ in
      if no_children (live_children s w) then ([], w) else (messages ++ more, w₃)

  -- `stopped` is none when an exception leaves `stop`
  pub record Stopped : Type 0 where
    pub stopped : Option Bool
    pub messages : List Message
    pub world : World
    pub cleared : Bool

  abbrev pub with_verdict : RuntimeState → List Message → World → Stopped
  with_verdict s messages w =
      let stopped = not (is_live s w) && no_children (live_children s w) in
      record { stopped = some stopped; messages = messages; world = w; cleared = stopped }

  unfoldable pub stop : RuntimeState → ℕ → World → Stopped
  stop s grace w =
      let p = stop_servepilot s grace w in
      let (messages, w') = stop_leftovers s grace p.world in
      if p.finished
      then with_verdict s (p.messages ++ messages) w'
      else record { stopped = none; messages = p.messages; world = p.world; cleared = false }
