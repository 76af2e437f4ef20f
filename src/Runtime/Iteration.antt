-- ===== src/Runtime/Iteration.antt =====
-- A tick of the runtime (src/agents/runtime.py, `_run_iteration`) with what it calls: the agents in turn, the circuit
-- breaker, the wait for the bus and the heartbeats.
use agenthedge.Prelude.{
  ℕ, ◌+◌, ◌-◌, Bool, true, false, not, ◌||◌, Option, none, some, List, [], ◌∷◌, ◌++◌, String, Dict,
  get, put, pop, keep_if, is_some, if◌then◌else◌, ◌==◌, ltb, leb,
}
use Prim.Native.String.{◌++◌ as append}
use agenthedge.Values.{text, number, Payload}
use agenthedge.Message.{contains}
use agenthedge.Lease.{renew_lease, release_lease, heartbeat, StateDb}
use agenthedge.Runtime.State.{
  RuntimeSettings, RuntimeState, ran, Run, audit_runtime, alert, set_rt, persist_checkpoint,
  break_glass_active, record_bypass, engage_kill_switch, handle_kill_signal,
}

-- what an agent's turn comes to: whether it raised, the time after it, and the messages that the kill
-- switch's subscription has handled by then
pub record Turn (F : Type 0) : Type 0 where
  pub raised : Bool
  pub now : ℕ
  pub signals : List (String × Payload F)

-- what the wait for the bus comes to, with the payload of its report
pub data Wait (F : Type 0) : Type 0 where
  caught_up : Wait F
  timed_out : Payload F → Wait F
  failed_wait : Payload F → Wait F

-- what the tick meets: the time, the pending deliveries, the agents' turns, the wait, the signals that
-- come in besides those of the turns (they are handled on the bus's thread, whatever the tick does), the bus's checkpoint and the reports of service levels that are not met
pub record Meets (F : Type 0) : Type 0 where
  pub now : ℕ
  pub pending : Payload F
  pub turns : String → Turn F
  pub wait : Wait F
  pub signals : List (String × Payload F)
  pub checked_at : ℕ
  pub checkpoint : ℕ
  pub breaches : List (String × Payload F)

module _ {F : Type 0} (cfg : RuntimeSettings F) (is_active : String → Bool) where
  abbrev pub handle_all : ℕ → Payload F → List (String × Payload F) → Run F → Run F
  handle_all now pending [] w = w
  handle_all now pending ((topic, payload) ∷ signals) w =
      handle_all now pending signals (handle_kill_signal cfg is_active now pending topic payload w)

  -- `_remove_heartbeat_tracking`
  abbrev pub untracked : String → RuntimeState → RuntimeState
  untracked name rt = record rt {
    heartbeats = pop name rt.heartbeats;
    stale_heartbeats = keep_if (λ k. not (k == name)) rt.stale_heartbeats;
  }

  -- `_prune_disabled_heartbeats`
  abbrev pub pruned : List String → RuntimeState → RuntimeState
  pruned [] rt = rt
  pruned (a ∷ names) rt = pruned names (untracked a rt)

  abbrev pub count_or_zero : Option ℕ → ℕ
  count_or_zero none = 0
  count_or_zero (some n) = n

  abbrev pub failure_payload : String → ℕ → Payload F
  failure_payload name count =
      ("agent", text name)
      ∷ ("failure_count", number (cfg.of_count count))
      ∷ ("threshold", number (cfg.of_count cfg.failure_threshold))
      ∷ ("action", text cfg.failure_action)
      ∷ []

  -- the circuit breaker at the threshold
  abbrev pub break_circuit : ℕ → Payload F → String → Payload F → Run F → Run F
  break_circuit now pending name payload w =
      if cfg.failure_disables
      then alert cfg "runtime_agent_disabled" payload "error" (
          set_rt cfg
            (record (untracked name w.rt) { disabled_agents = name ∷ w.rt.disabled_agents }) w)
      else engage_kill_switch cfg is_active now pending "runtime.circuit_breaker"
          (append "agent_failure:" name) payload w

  -- `_handle_agent_failure`
  unfoldable pub handle_agent_failure : ℕ → Payload F → String → Run F → Run F
  unfolding audit_runtime alert engage_kill_switch
  handle_agent_failure now pending name w =
      let count = count_or_zero (get name w.rt.failure_counts) + 1 in
      let w1 = set_rt cfg (record w.rt { failure_counts = put name count w.rt.failure_counts }) w in
      if ltb count cfg.failure_threshold
      then w1
      else break_circuit now pending name (failure_payload name count)
          (audit_runtime cfg "runtime_agent_circuit_breaker" (failure_payload name count) w1)

  -- `_record_heartbeat`
  abbrev pub record_heartbeat : ℕ → String → RuntimeState → RuntimeState
  record_heartbeat now name rt = if contains rt.disabled_agents name then rt else record rt {
    heartbeats = put name now rt.heartbeats;
    stale_heartbeats = keep_if (λ k. not (k == name)) rt.stale_heartbeats;
  }

  -- an agent's turn, with the messages that are handled by its end
  abbrev pub take_turn : Payload F → String → Turn F → Run F → Run F
  take_turn pending name t w =
      let w1 = handle_all t.now pending t.signals (record w { acts = w.acts ++ (ran name ∷ []) }) in
      if t.raised
      then handle_agent_failure t.now pending name w1
      else set_rt cfg
          (record_heartbeat t.now name
            (record w1.rt { failure_counts = put name 0 w1.rt.failure_counts }))
          w1

  -- the loop over the agents
  unfoldable pub run_agents : Payload F → (String → Turn F) → List String → Run F → Run F
  unfolding handle_agent_failure handle_kill_signal
  run_agents pending turns [] w = w
  run_agents pending turns (a ∷ agents) w =
      if is_some w.rt.kill_switch_reason
      then w
      else run_agents pending turns agents
          (if contains w.rt.disabled_agents a then w else take_turn pending a (turns a) w)

  abbrev pub late_report : ℕ → Payload F → String → Payload F → Run F → Bool × Run F
  late_report now pending reason payload w =
      let w1 =
        alert cfg "runtime_bus_catchup_timeout" payload "critical"
          (audit_runtime cfg "runtime_bus_catchup_timeout" payload w) in
      if break_glass_active cfg is_active "runtime.bus"
      then (true, record_bypass cfg is_active "runtime.bus" payload "runtime.bus" w1)
      else (false, engage_kill_switch cfg is_active now pending "runtime.bus" reason payload w1)

  -- `_wait_for_bus_checkpoint`
  unfoldable pub wait_for_bus : ℕ → Payload F → Wait F → Run F → Bool × Run F
  unfolding audit_runtime alert record_bypass engage_kill_switch
  wait_for_bus now pending caught_up w = (true, w)
  wait_for_bus now pending (timed_out payload) w =
      late_report now pending "bus_catchup_timeout" payload w
  wait_for_bus now pending (failed_wait payload) w =
      late_report now pending "bus_catchup_error" payload w

  abbrev pub stale_payload : String → ℕ → Payload F
  stale_payload name age =
      ("agent", text name)
      ∷ ("heartbeat_age_seconds", number (cfg.of_count age))
      ∷ ("timeout_seconds", number (cfg.of_count cfg.heartbeat_timeout))
      ∷ []

  -- an agent that has just gone stale
  abbrev pub gone_stale : ℕ → Payload F → String → ℕ → Run F → Run F
  gone_stale now pending name age w =
      let payload = stale_payload name age in
      let w1 = alert cfg "runtime_heartbeat_stale" payload "error" (
        audit_runtime cfg "runtime_heartbeat_stale" payload
          (set_rt cfg (record w.rt { stale_heartbeats = name ∷ w.rt.stale_heartbeats }) w)) in
      if not cfg.heartbeat_kill_enabled
      then w1
      else if break_glass_active cfg is_active "runtime.heartbeat"
      then record_bypass cfg is_active "runtime.heartbeat" payload "runtime.heartbeat" w1
      else engage_kill_switch cfg is_active now pending "runtime.heartbeat"
          (append "stale_heartbeat:" name) payload w1

  unfoldable pub check_each : ℕ → Payload F → Dict ℕ → Run F → Run F
  unfolding audit_runtime alert record_bypass engage_kill_switch
  check_each now pending [] w = w
  check_each now pending ((name, last_seen) ∷ beats) w = check_each now pending beats (
      if contains w.rt.disabled_agents name
        || leb (now - last_seen) cfg.heartbeat_timeout
        || contains w.rt.stale_heartbeats name
      then w
      else gone_stale now pending name (now - last_seen) w)

  -- `_check_heartbeats`
  unfoldable pub check_heartbeats : ℕ → Payload F → Run F → Run F
  unfolding check_each
  check_heartbeats now pending w =
      if cfg.heartbeat_monitor_enabled
      then (let rt = pruned w.rt.disabled_agents w.rt in
          check_each now pending rt.heartbeats (set_rt cfg rt w))
      else w

  -- the reports of `_record_reliability_metrics`
  abbrev pub report_all : List (String × Payload F) → Run F → Run F
  report_all [] w = w
  report_all ((name, payload) ∷ breaches) w =
      report_all breaches (alert cfg name payload "error" (audit_runtime cfg name payload w))

  -- the end of a tick that was not stopped
  abbrev pub complete : Meets F → Run F → Run F
  complete m w =
      let w1 = check_heartbeats m.checked_at m.pending w in
      let w2 = record w1 {
        rt = record w1.rt { tick_count = w1.rt.tick_count + 1; bus_checkpoint = m.checkpoint };
        db = heartbeat m.checked_at cfg.instance_id "running" w1.db;
      } in
      persist_checkpoint cfg m.checked_at m.pending (report_all m.breaches w2)

  abbrev pub after_wait : Meets F → Bool × Run F → Run F
  after_wait m (false, w) = handle_all m.now m.pending m.signals w
  after_wait m (true, w) =
      let w1 = handle_all m.now m.pending m.signals w in
      if is_some w1.rt.kill_switch_reason then w1 else complete m w1

  -- `_refresh_acl_policy`, of what the governance asks for
  abbrev pub refreshed : Bool → RuntimeState → RuntimeState
  refreshed enforce rt = record rt {
    acl_enforced = if break_glass_active cfg is_active "bus.acl" then false else enforce;
  }

  abbrev pub go_on : Meets F → Run F → Run F
  go_on m w =
      if is_some w.rt.kill_switch_reason
      then handle_all m.now m.pending m.signals w
      else (let w1 = run_agents m.pending m.turns w.rt.agents w in
          after_wait m (wait_for_bus m.now m.pending m.wait w1))

  abbrev pub renewed : Meets F → Run F → Bool × StateDb F → Run F
  renewed m w (true, db) = go_on m (record w { db = db })
  renewed m w (false, db) = handle_all m.now m.pending m.signals (
      engage_kill_switch cfg is_active m.now m.pending "runtime.fencing" "runtime_lease_lost"
        (("runtime_name", text cfg.runtime_name) ∷ []) (record w { db = db }))

  abbrev pub renew_and_go : Meets F → Option ℕ → Run F → Run F
  renew_and_go m none w = go_on m w
  renew_and_go m (some token) w =
      renewed m w (renew_lease m.now cfg.instance_id cfg.runtime_name token cfg.lease_seconds w.db)

  -- `_run_iteration`
  unfoldable pub run_iteration : Bool → Meets F → Run F → Run F
  unfolding run_agents wait_for_bus check_heartbeats persist_checkpoint renew_lease heartbeat
      engage_kill_switch audit_runtime alert handle_kill_signal
  run_iteration enforce m w =
      let w1 = set_rt cfg (refreshed enforce w.rt) w in renew_and_go m w1.rt.fence_token w1

  -- `_release_runtime_lease`
  abbrev pub release_runtime_lease : Option ℕ → Run F → Run F
  release_runtime_lease none w = w
  release_runtime_lease (some token) w = record w {
    rt = record w.rt { fence_token = none };
    db = release_lease cfg.instance_id cfg.runtime_name token w.db;
  }

  -- `stop`, of what the runtime itself keeps
  unfoldable pub stop_runtime : ℕ → Payload F → Run F → Run F
  unfolding persist_checkpoint heartbeat release_lease
  stop_runtime now pending w =
      let w1 = persist_checkpoint cfg now pending (record w {
        rt = record w.rt { stopped = true };
        db = heartbeat now cfg.instance_id "stopped" w.db;
      }) in
      release_runtime_lease w1.rt.fence_token w1
