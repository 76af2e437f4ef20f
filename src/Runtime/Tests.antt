-- ===== src/Runtime/Tests.antt =====
-- A runtime that is killed while it holds its lease, and started again.
use agenthedge.Prelude.{
  ℕ, ◌≡◌, refl, Bool, true, false, none, some, List, [], ◌∷◌, ℤ, pos, tally, ◌==◌, arith, String,
  get, put,
}
use agenthedge.Lease.{
  StateDb, acquire_lease, save_checkpoint, load_checkpoint, record_incident, mark_started,
}
use agenthedge.Lease.Tests.{empty_db}
use agenthedge.Lease.Fencing.{acquire, perform_all}
use agenthedge.Runtime.State.{
  RuntimeSettings, RuntimeState, Run, engage_kill_switch, audit_runtime, alert, persist_checkpoint,
}
use agenthedge.Runtime.Boot.{bootstrap, acquire_runtime_lease, restore_checkpoint}
use agenthedge.Runtime.Iteration.{Meets, Turn, caught_up}
use agenthedge.Runtime.KillSwitch.{IsKilled, iterate}
use agenthedge.Runtime.Loop.{run_loop}
use agenthedge.Runtime.Names.{agents_to_create, tally-agents_to_create}
use agenthedge.Runtime.Ends.{Ended, run_loop-ends}
use agenthedge.Runtime.Reports.{reconcile_execution}
use agenthedge.Runtime.Outcomes.{reconcile_execution-outcome}
use agenthedge.Anomaly.{Detector}
use agenthedge.Runtime.Restart.{bootstrap-killed}

abbrev settings : RuntimeSettings ℕ
settings = record {
  runtime_name = "main";
  instance_id = "a";
  profile = "paper";
  backend = "postgres";
  lease_seconds = 30;
  failover_threshold = 60;
  failure_threshold = 3;
  failure_disables = true;
  failure_action = "disable";
  heartbeat_timeout = 60;
  heartbeat_monitor_enabled = true;
  heartbeat_kill_enabled = true;
  break_glass_enabled = false;
  alerts = true;
  of_count = λ n. n;
  fence_text = λ e. "fenced";
}

abbrev successor : RuntimeSettings ℕ
successor = record settings { instance_id = "b" }

abbrev fresh_rt : RuntimeState
fresh_rt = record {
  agents = "risk" ∷ [];
  tick_count = 4;
  bus_checkpoint = 9;
  fence_token = some 1;
  checkpoint_fence_lost = false;
  kill_switch_reason = none;
  kill_switch_trigger = none;
  failure_counts = [];
  disabled_agents = [];
  heartbeats = [];
  stale_heartbeats = [];
  stopped = false;
  acl_enforced = true;
}

abbrev leader : Run ℕ
leader = record { rt = fresh_rt; db = (acquire_lease 0 0 "a" 30 "main" empty_db).1; acts = [] }

abbrev no_override : String → Bool
no_override control = false

abbrev killed_db : StateDb ℕ
killed_db =
    (engage_kill_switch settings no_override 10 [] "risk.kill_switch" "daily_loss_hard_stop" []
      leader).db

abbrev started : Run ℕ
started = record {
  rt = record fresh_rt { agents = []; fence_token = none };
  db = perform_all (acquire 20 20 "c" 30 "other" ∷ []) killed_db;
  acts = [];
}

bootstrap-killed_example :
    (bootstrap successor 40 40 [] ("risk" ∷ []) started).1.rt.kill_switch_reason
    ≡ some "daily_loss_hard_stop"
unfolding acquire_lease get put engage_kill_switch audit_runtime alert persist_checkpoint
    save_checkpoint bootstrap acquire_runtime_lease restore_checkpoint load_checkpoint
    record_incident mark_started
bootstrap-killed_example =
    bootstrap-killed settings successor no_override 10 [] "risk.kill_switch" "daily_loss_hard_stop"
      [] 1 leader (acquire 20 20 "c" 30 "other" ∷ []) 40 40 [] ("risk" ∷ []) started refl refl refl
      refl refl refl (tt, tt) refl refl

abbrev quiet_turn : String → Turn ℕ
quiet_turn name = record { raised = false; now = 12; signals = [] }

abbrev calm : Meets ℕ
calm = record {
  now = 11;
  pending = [];
  turns = quiet_turn;
  wait = caught_up;
  signals = [];
  checked_at = 13;
  checkpoint = 9;
  breaches = [];
}

abbrev halted : Run ℕ
halted = record leader { rt = record fresh_rt { kill_switch_reason = some "stop" } }

-- from tick 4 to a bound of 6
abbrev three_iterations : List (Bool × Meets ℕ)
three_iterations = (true, calm) ∷ (true, calm) ∷ (true, calm) ∷ []

run_loop-ends_example :
    Ended settings no_override 6 4 (run_loop settings no_override 6 three_iterations leader)
run_loop-ends_example =
    run_loop-ends settings no_override 6 three_iterations leader (omega arith) (λ e. cc)
      (refl, refl) (omega arith) (omega arith)

tally-agents_to_create_example :
    tally
      (λ y. y == "director")
      (agents_to_create
        ("director" ∷ "risk" ∷ [])
        []
        ("risk" ∷ "data_director" ∷ "director" ∷ "risk" ∷ []))
    ≡ 1
tally-agents_to_create_example =
    tally-agents_to_create ("director" ∷ "risk" ∷ []) []
      ("risk" ∷ "data_director" ∷ "director" ∷ "risk" ∷ []) "director"

reconcile_execution-outcome_example :
    let w =
      reconcile_execution settings no_override 11 []
        (record { symbol = "SPY"; broker_quantity = 3; portfolio_quantity = 4 } ∷ [])
        []
        leader in
    IsKilled settings no_override "execution_reconciliation_mismatch" w.rt.tick_count w.acts
      (iterate settings no_override three_iterations w)
reconcile_execution-outcome_example =
    reconcile_execution-outcome settings no_override 11 []
      (record { symbol = "SPY"; broker_quantity = 3; portfolio_quantity = 4 } ∷ []) [] leader
      three_iterations refl refl

abbrev float_settings : RuntimeSettings ℤ
float_settings = record {
  runtime_name = "main";
  instance_id = "a";
  profile = "paper";
  backend = "postgres";
  lease_seconds = 30;
  failover_threshold = 60;
  failure_threshold = 3;
  failure_disables = true;
  failure_action = "disable";
  heartbeat_timeout = 60;
  heartbeat_monitor_enabled = true;
  heartbeat_kill_enabled = true;
  break_glass_enabled = false;
  alerts = true;
  of_count = λ n. pos n;
  fence_text = λ e. "fenced";
}

abbrev burst : Detector ℤ
burst = record {
  window = 60;
  baseline_windows = 3;
  warning_zscore = pos 2;
  critical_zscore = pos 4;
  events = ("execution.fill", 90 ∷ 95 ∷ 99 ∷ 100 ∷ []) ∷ [];
  history = ("execution.fill", 0 ∷ 0 ∷ 0 ∷ []) ∷ [];
  last_rollup = 90;
}

abbrev float_leader : Run ℤ
float_leader = record {
  rt = fresh_rt;
  db = record {
    leases = [];
    checkpoints = [];
    instances = [];
    incidents = [];
    scheduler_runs = [];
  };
  acts = [];
}

abbrev flat : List ℕ → ℤ
flat xs = pos 0
