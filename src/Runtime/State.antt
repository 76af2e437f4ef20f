-- ===== src/Runtime/State.antt =====
-- The state of `AgentRuntime` (src/agents/runtime.py) over the Postgres state tables, its checkpoint and its kill
-- switch. The break-glass store is asked by a parameter; logging, metrics and the
-- observability state are left out, and the audit sink does not raise.
use agenthedge.Prelude.{
  ℕ, Bool, true, ◌&&◌, ◌||◌, Option, none, some, List, [], ◌∷◌, ◌++◌, String, Dict, is_some,
  if◌then◌else◌, Result, ok, err,
}
use agenthedge.Values.{text, number, object, Payload, get_value, nonempty_text, of_dict}
use agenthedge.Lease.{StateDb, CheckpointRow, FenceError, save_checkpoint, record_incident}

pub record RuntimeSettings (F : Type 0) : Type 0 where
  pub runtime_name : String
  pub instance_id : String
  pub profile : String
  pub backend : String
  pub lease_seconds : ℕ
  pub failover_threshold : ℕ
  pub failure_threshold : ℕ
  -- whether the action on failures is "disable"
  pub failure_disables : Bool
  pub failure_action : String
  pub heartbeat_timeout : ℕ
  pub heartbeat_monitor_enabled : Bool
  pub heartbeat_kill_enabled : Bool
  pub break_glass_enabled : Bool
  -- whether there is an alert sink
  pub alerts : Bool
  -- a count or a time as a number
  pub of_count : ℕ → F
  -- the text of an exception
  pub fence_text : FenceError → String

pub record RuntimeState : Type 0 where
  pub agents : List String
  pub tick_count : ℕ
  pub bus_checkpoint : ℕ
  pub fence_token : Option ℕ
  pub checkpoint_fence_lost : Bool
  pub kill_switch_reason : Option String
  pub kill_switch_trigger : Option String
  pub failure_counts : Dict ℕ
  pub disabled_agents : List String
  pub heartbeats : Dict ℕ
  pub stale_heartbeats : List String
  pub stopped : Bool
  -- the bus's enforcement of its rules
  pub acl_enforced : Bool

-- what the runtime does, in order
pub data Act (F : Type 0) : Type 0 where
  audited : String → Payload F → Act F
  alerted : String → Payload F → String → Act F
  -- an agent's `run_tick`
  ran : String → Act F

-- the runtime with the tables and what it has done
pub record Run (F : Type 0) : Type 0 where
  pub rt : RuntimeState
  pub db : StateDb F
  pub acts : List (Act F)

module _ {F : Type 0} (cfg : RuntimeSettings F) where
  -- `_audit_runtime`
  unfoldable pub audit_runtime : String → Payload F → Run F → Run F
  unfolding record_incident
  audit_runtime action payload w = record w {
    db = record_incident cfg.instance_id action payload w.db;
    acts = w.acts ++ (audited action payload ∷ []);
  }

  unfoldable pub alert : String → Payload F → String → Run F → Run F
  alert name payload severity w =
      if cfg.alerts then record w { acts = w.acts ++ (alerted name payload severity ∷ []) } else w

  abbrev pub set_rt : RuntimeState → Run F → Run F
  set_rt rt w = record w { rt = rt }

  -- the row of a checkpoint, for its token
  abbrev pub checkpoint_row : RuntimeState → Payload F → ℕ → CheckpointRow F
  checkpoint_row rt payload token = record {
    instance_id = cfg.instance_id;
    fence_token = token;
    tick_count = rt.tick_count;
    bus_checkpoint = rt.bus_checkpoint;
    kill_switch_reason = rt.kill_switch_reason;
    kill_switch_trigger = rt.kill_switch_trigger;
    payload_json = payload;
  }

  -- a runtime whose checkpoint was fenced off
  abbrev pub fenced_rt : RuntimeState → RuntimeState
  fenced_rt rt = record rt {
    checkpoint_fence_lost = true;
    kill_switch_reason =
        if is_some rt.kill_switch_reason
        then rt.kill_switch_reason
        else some "checkpoint_fence_lost";
    kill_switch_trigger =
        if is_some rt.kill_switch_reason then rt.kill_switch_trigger else some "runtime.fencing";
    stopped = true;
  }

  abbrev pub fence_payload : RuntimeState → FenceError → Payload F
  fence_payload rt e =
      ("runtime_name", text cfg.runtime_name)
      ∷ ("instance_id", text cfg.instance_id)
      ∷ ("error", text (cfg.fence_text e))
      ∷ ("tick_count", number (cfg.of_count rt.tick_count))
      ∷ ("bus_checkpoint", number (cfg.of_count rt.bus_checkpoint))
      ∷ []

  abbrev pub persisted : Run F → Result FenceError Unit × StateDb F → Run F
  persisted w (ok u, db) = record w { db = db }
  persisted w (err e, db) =
      if w.rt.checkpoint_fence_lost
      then w
      else alert "runtime_checkpoint_fence_lost" (fence_payload w.rt e) "critical" (
          audit_runtime "runtime_checkpoint_fence_lost" (fence_payload w.rt e)
            (set_rt (fenced_rt w.rt) w))

  -- `_persist_checkpoint`, with the pending deliveries that it notes
  unfoldable pub persist_checkpoint : ℕ → Payload F → Run F → Run F
  unfolding save_checkpoint audit_runtime alert
  persist_checkpoint now payload w = persisted w (
      save_checkpoint now cfg.instance_id cfg.runtime_name w.rt.fence_token
        (checkpoint_row w.rt payload) w.db)

  module _ (is_active : String → Bool) where
    -- `_break_glass_active`; a store that raises counts as inactive
    abbrev pub break_glass_active : String → Bool
    break_glass_active control_name = cfg.break_glass_enabled && is_active control_name

    -- `_record_break_glass_bypass`
    unfoldable pub record_bypass : String → Payload F → String → Run F → Run F
    unfolding audit_runtime alert
    record_bypass control_name payload trigger w =
        let body =
          ("control_name", text control_name)
          ∷ ("trigger", text trigger)
          ∷ ("payload", object (of_dict payload))
          ∷ [] in
        alert "runtime_break_glass_bypass" body "warning"
          (audit_runtime "runtime_break_glass_bypass" body w)

    abbrev pub kill_payload : String → String → Payload F → Payload F
    kill_payload trigger reason payload =
        ("trigger", text trigger)
        ∷ ("reason", text reason)
        ∷ ("payload", object (of_dict payload))
        ∷ []

    abbrev pub killed_rt : String → String → RuntimeState → RuntimeState
    killed_rt trigger reason rt = record rt {
      kill_switch_reason = some reason;
      kill_switch_trigger = some trigger;
    }

    abbrev pub stop : Run F → Run F
    stop w = set_rt (record w.rt { stopped = true }) w

    -- `_engage_kill_switch`; every reason that it is given is a text that is not empty
    unfoldable pub engage_kill_switch : ℕ → Payload F → String → String → Payload F → Run F → Run F
    unfolding record_bypass audit_runtime alert persist_checkpoint
    engage_kill_switch now pending trigger reason payload w =
        if is_some w.rt.kill_switch_reason
        then w
        else if break_glass_active "runtime.kill_switch" || break_glass_active trigger
        then record_bypass trigger payload trigger w
        else stop (
            persist_checkpoint now pending (
              alert "runtime_kill_switch" (kill_payload trigger reason payload) "critical" (
                audit_runtime "runtime_kill_switch" (kill_payload trigger reason payload)
                  (set_rt (killed_rt trigger reason w.rt) w))))

    abbrev pub reason_of : Option String → String
    reason_of none = "unspecified"
    reason_of (some reason) = reason

    -- `_handle_kill_signal`, of a message's topic and payload
    unfoldable pub handle_kill_signal : ℕ → Payload F → String → Payload F → Run F → Run F
    unfolding engage_kill_switch record_bypass get_value nonempty_text
    handle_kill_signal now pending topic payload w =
        if break_glass_active "runtime.kill_switch"
        then record_bypass "runtime.kill_switch" payload topic w
        else engage_kill_switch now pending topic
            (reason_of (nonempty_text (get_value "reason" payload))) payload w
