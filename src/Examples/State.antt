-- ===== src/Examples/State.antt =====
-- runtime/state.py: the stop of a deployment, one of whose pids now belongs to a stranger.
use open_baseten_inference.Prelude.{
  ℕ, ◌≡◌, refl, sym, ◌∙◌, ap, Bool, true, false, if◌then◌else◌, Option, none, some, [], ◌∷◌, ◌+◌,
  ltb, ◌&&◌, ◌==◌, All-mem, arith,
}
use open_baseten_inference.Runtime.State.{
  Signal, Process, ChildProcessRecord, RuntimeState, Os, process_matches, created_at, wait,
  stop_servepilot, signal_all, stop_leftovers, stop,
}
use open_baseten_inference.Runtime.State.Spared.{IsHarmless, stop-Keeps}
use open_baseten_inference.Runtime.State.Wait.{wait-ends}

pub record Table : Type 0 where
  pub clock : ℕ
  pub table : ℕ → Option Process

abbrev gone : Signal → ℕ → Table → Bool × Table
gone signal pid w = (true, record w { table = λ q. if q == pid then none else w.table q })

abbrev table_os : Os
table_os = record {
  World = Table;
  process = λ pid w. w.table pid;
  kill = gone;
  kill_group = gone;
  sleep = λ n w. record w { clock = w.clock + n };
  monotonic = λ w. w.clock;
}

abbrev stranger : Process
stranger = record { zombie = false; create_time = 5000 }

abbrev deployment : RuntimeState
deployment = record {
  servepilot_pid = 5;
  servepilot_create_time = 100;
  children =
      record { pid = 7; create_time = 1000; replica_id = "r0" }
      ∷ record { pid = 8; create_time = 1010; replica_id = "r1" }
      ∷ [];
}

abbrev machine : Table
machine = record {
  clock = 9000;
  table = λ q.
      if q == 7
      then some stranger
      else if q == 5
      then some (record { zombie = false; create_time = 150 })
      else if q == 8
      then some (record { zombie = false; create_time = 1000 })
      else none;
}

abbrev HasStranger : Table → Type 0
HasStranger w = w.table 7 ≡ some stranger

not_recorded : (v : Table) → process_matches table_os 7 1000 v ≡ true → HasStranger v → false ≡ true
unfolding process_matches
not_recorded v e j = sym (ap (created_at 1000) j) ∙ e

deployment-IsHarmless : IsHarmless table_os deployment HasStranger
deployment-IsHarmless = record {
  sleeps = λ n w k. k;
  kills = λ signal w e k. k;
  kills_group = λ signal c v w m.
      All-mem
        (λ (r : ChildProcessRecord).
          process_matches table_os r.pid r.create_time v ≡ true
          → HasStranger v
          → HasStranger w
          → HasStranger (gone signal r.pid w).1)
        deployment.children (λ e j k. let h = not_recorded v e j in absurd (cc), (λ e j k. k, tt))
        m;
}

stop-Keeps_example : HasStranger (stop table_os deployment 300 machine).world
stop-Keeps_example =
    stop-Keeps table_os deployment HasStranger deployment-IsHarmless 300 machine refl

machine_stops : (stop table_os deployment 300 machine).stopped ≡ some true
unfolding stop stop_servepilot process_matches wait stop_leftovers signal_all
machine_stops = refl

wait-ends_example :
    let v = wait table_os (λ w. true) 9300 300 machine in (ltb v.clock 9300 && true) ≡ false
wait-ends_example = wait-ends table_os (λ w. true) 9300 300 machine (λ v. omega arith) (omega arith)
