-- ===== src/Runtime/Boot.antt =====
-- How a runtime starts (src/agents/runtime.py): the lease, the checkpoint that is restored, and `bootstrap`.
use agenthedge.Prelude.{
  ℕ, Bool, true, false, Option, none, some, List, [], ◌∷◌, String, put, if◌then◌else◌, ◌==◌, ltb,
}
use agenthedge.Values.{text, number, Payload}
use agenthedge.Lease.{StateDb, CheckpointRow, Grant, acquire_lease, load_checkpoint, mark_started}
use agenthedge.Runtime.State.{
  RuntimeSettings, RuntimeState, Run, set_rt, audit_runtime, alert, persist_checkpoint,
}

module _ {F : Type 0} (cfg : RuntimeSettings F) where
  abbrev pub trigger_of : Option String → String
  trigger_of none = "checkpoint"
  trigger_of (some t) = if t == "" then "checkpoint" else t

  abbrev pub restored_reason : Option String → Option String → RuntimeState → RuntimeState
  restored_reason none trigger rt = rt
  restored_reason (some reason) trigger rt = if reason == "" then rt else record rt {
    kill_switch_reason = some reason;
    kill_switch_trigger = some (trigger_of trigger);
    stopped = true;
  }

  abbrev pub restored : Option (CheckpointRow F) → RuntimeState → RuntimeState
  restored none rt = rt
  restored (some row) rt =
      restored_reason row.kill_switch_reason row.kill_switch_trigger
        (record rt { tick_count = row.tick_count; bus_checkpoint = row.bus_checkpoint })

  -- `_restore_checkpoint`
  unfoldable pub restore_checkpoint : Run F → Run F
  unfolding load_checkpoint
  restore_checkpoint w = set_rt cfg (restored (load_checkpoint cfg.runtime_name w.db) w.rt) w

  -- the service level of a failover
  abbrev pub failover_checked : Option ℕ → Run F → Run F
  failover_checked none w = w
  failover_checked (some seconds) w =
      let payload =
        ("runtime_name", text cfg.runtime_name)
        ∷ ("failover_time_seconds", number (cfg.of_count seconds))
        ∷ ("threshold", number (cfg.of_count cfg.failover_threshold))
        ∷ [] in
      if ltb cfg.failover_threshold seconds
      then alert cfg "runtime_failover_time_slo_breach" payload "error"
          (audit_runtime cfg "runtime_failover_time_slo_breach" payload w)
      else w

  abbrev pub leased : Run F → Grant × StateDb F → Bool × Run F
  leased w (grant, db) =
      if grant.acquired
      then (
        true,
        failover_checked grant.failover_seconds
            (record w { db = db; rt = record w.rt { fence_token = some grant.token } }),
      )
      else (false, record w { db = db })

  -- `_acquire_runtime_lease`, which raises, false, when another leader is active
  unfoldable pub acquire_runtime_lease : ℕ → ℕ → Run F → Bool × Run F
  unfolding acquire_lease audit_runtime alert
  acquire_runtime_lease db_now own_now w =
      leased w
        (acquire_lease db_now own_now cfg.instance_id cfg.lease_seconds cfg.runtime_name w.db)

  abbrev pub counted : List String → ℕ → RuntimeState → RuntimeState
  counted [] now rt = rt
  counted (a ∷ names) now rt = counted names now (record rt {
    failure_counts = put a 0 rt.failure_counts;
    heartbeats = put a now rt.heartbeats;
  })

  abbrev pub with_agents : List String → ℕ → RuntimeState → RuntimeState
  with_agents names now rt =
      counted names now (record rt { agents = names; failure_counts = []; heartbeats = [] })

  -- the rest of `bootstrap`, with the agents that it creates, whose setup does not raise; without any it
  -- raises
  abbrev pub booted : ℕ → Payload F → List String → Bool × Run F → Bool × Run F
  booted now pending names (false, w) = (false, w)
  booted now pending [] (true, w) = (false, restore_checkpoint w)
  booted now pending (a ∷ names) (true, w) =
      let w1 = restore_checkpoint w in
      (
        true,
        persist_checkpoint cfg now pending (record w1 {
          rt = with_agents (a ∷ names) now w1.rt;
          db = mark_started now cfg.instance_id cfg.profile cfg.backend w1.db;
        }),
      )

  -- `bootstrap`
  unfoldable pub bootstrap : ℕ → ℕ → Payload F → List String → Run F → Bool × Run F
  unfolding acquire_runtime_lease restore_checkpoint persist_checkpoint mark_started
  bootstrap db_now own_now pending names w =
      booted db_now pending names (acquire_runtime_lease db_now own_now w)
