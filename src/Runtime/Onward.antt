-- ===== src/Runtime/Onward.antt =====
-- What the parts of an iteration leave of the count of ticks and of the event that ends the loop
-- (src/agents/runtime.py).
use agenthedge.Prelude.{
  ℕ, ◌+◌, ◌≡◌, refl, sym, ◌∙◌, subst, Bool, true, ◌||◌, List, [], ◌∷◌, ◌++◌, ◌-◌, get, put, not,
  String, Dict, is_some, if◌then◌else◌, if_both, ltb, leb, Result, ok, err,
}
use agenthedge.Values.{Payload}
use agenthedge.Message.{contains}
use agenthedge.Lease.{StateDb, FenceError, save_checkpoint}
use agenthedge.Runtime.State.{
  RuntimeSettings, RuntimeState, Run, ran, audit_runtime, alert, set_rt, persisted,
  persist_checkpoint, checkpoint_row, fence_payload, fenced_rt, record_bypass, engage_kill_switch,
  killed_rt, kill_payload, stop, handle_kill_signal,
}
use agenthedge.Runtime.Iteration.{
  Turn, count_or_zero, failure_payload, stale_payload, handle_all, break_circuit,
  handle_agent_failure, take_turn, run_agents, gone_stale, check_each, check_heartbeats, report_all,
  pruned, untracked,
}
use agenthedge.Runtime.KillSwitch.{alert-rt}

module _ {F : Type 0} (cfg : RuntimeSettings F) where
  -- an engaged kill switch has set the event
  abbrev pub Halts : RuntimeState → Type 0
  Halts rt = is_some rt.kill_switch_reason ≡ true → rt.stopped ≡ true

  -- what a part of an iteration keeps
  pub record Onward (rt rt' : RuntimeState) : Type 0 where
    pub ticks : rt'.tick_count ≡ rt.tick_count
    pub stays : rt.stopped ≡ true → rt'.stopped ≡ true
    pub halts : Halts rt → Halts rt'

  pub Onward-refl : (rt : RuntimeState) → Onward rt rt
  Onward-refl rt = record { ticks = refl; stays = λ h. h; halts = λ h. h }

  pub Onward-trans : (a b c : RuntimeState) → Onward a b → Onward b c → Onward a c
  Onward-trans a b c f g = record {
    ticks = g.ticks ∙ f.ticks;
    stays = λ h. g.stays (f.stays h);
    halts = λ h. g.halts (f.halts h);
  }

  -- An alert and an audit change nothing of it.
  pub told :
      (name name' : String) (p p' : Payload F) (severity : String) (w : Run F)
      → Onward w.rt (alert cfg name p severity (audit_runtime cfg name' p' w)).rt
  unfolding audit_runtime
  told name name' p p' severity w =
      subst (Onward w.rt) (sym (alert-rt cfg name p severity (audit_runtime cfg name' p' w)))
        (Onward-refl w.rt)

  pub persist-Onward :
      (now : ℕ) (pending : Payload F) (w : Run F)
      → Onward w.rt (persist_checkpoint cfg now pending w).rt
  unfolding persist_checkpoint
  persist-Onward now pending w = go (
      save_checkpoint now cfg.instance_id cfg.runtime_name w.rt.fence_token
        (checkpoint_row cfg w.rt pending) w.db)
    where
      go : (r : Result FenceError Unit × StateDb F) → Onward w.rt (persisted cfg w r).rt
      go (ok u, db) = Onward-refl w.rt
      go (err e, db) =
          let p = fence_payload cfg w.rt e in
          let w1 = set_rt cfg (fenced_rt cfg w.rt) w in
          if_both {A = Run F} (λ v. Onward w.rt v.rt) w.rt.checkpoint_fence_lost (Onward-refl w.rt)
            (Onward-trans w.rt w1.rt _
              (record { ticks = refl; stays = λ h. refl; halts = λ h k. refl })
              (told "runtime_checkpoint_fence_lost" "runtime_checkpoint_fence_lost" p p "critical"
                w1))

  module _ (is_active : String → Bool) where
    pub bypass-Onward :
        (control : String) (payload : Payload F) (trigger : String) (w : Run F)
        → Onward w.rt (record_bypass cfg is_active control payload trigger w).rt
    unfolding record_bypass
    bypass-Onward control payload trigger w = told _ _ _ _ "warning" w

    -- the kill switch as it is engaged
    abbrev engaged : ℕ → Payload F → String → String → Payload F → Run F → Run F
    engaged now pending trigger reason payload w = persist_checkpoint cfg now pending (
        alert cfg "runtime_kill_switch" (kill_payload cfg is_active trigger reason payload)
          "critical"
          (audit_runtime cfg "runtime_kill_switch"
            (kill_payload cfg is_active trigger reason payload)
            (set_rt cfg (killed_rt cfg is_active trigger reason w.rt) w)))

    engaged-Onward :
        (now : ℕ) (pending : Payload F) (trigger reason : String) (payload : Payload F) (w : Run F)
        → Onward w.rt (stop cfg is_active (engaged now pending trigger reason payload w)).rt
    engaged-Onward now pending trigger reason payload w =
        let rt1 = killed_rt cfg is_active trigger reason w.rt in
        let w1 =
          audit_runtime cfg "runtime_kill_switch"
            (kill_payload cfg is_active trigger reason payload) (set_rt cfg rt1 w) in
        let w2 =
          alert cfg "runtime_kill_switch" (kill_payload cfg is_active trigger reason payload)
            "critical" w1 in
        let f =
          Onward-trans rt1 w2.rt _ (told _ _ _ _ "critical" (set_rt cfg rt1 w))
            (persist-Onward now pending w2) in
        record { ticks = f.ticks; stays = λ h. refl; halts = λ h k. refl }

    pub engage-Onward :
        (now : ℕ) (pending : Payload F) (trigger reason : String) (payload : Payload F) (w : Run F)
        → Onward w.rt (engage_kill_switch cfg is_active now pending trigger reason payload w).rt
    unfolding engage_kill_switch
    engage-Onward now pending trigger reason payload w =
        if_both {A = Run F} (λ v. Onward w.rt v.rt) (is_some w.rt.kill_switch_reason)
          (Onward-refl w.rt)
          (if_both {A = Run F} (λ v. Onward w.rt v.rt) _ (bypass-Onward trigger payload trigger w)
            (engaged-Onward now pending trigger reason payload w))

    pub signal-Onward :
        (now : ℕ) (pending : Payload F) (topic : String) (payload : Payload F) (w : Run F)
        → Onward w.rt (handle_kill_signal cfg is_active now pending topic payload w).rt
    unfolding handle_kill_signal
    signal-Onward now pending topic payload w =
        if_both {A = Run F} (λ v. Onward w.rt v.rt) _
          (bypass-Onward "runtime.kill_switch" payload topic w)
          (engage-Onward now pending topic _ payload w)

    pub signals-Onward :
        (now : ℕ) (pending : Payload F) (signals : List (String × Payload F)) (w : Run F)
        → Onward w.rt (handle_all cfg is_active now pending signals w).rt
    signals-Onward now pending [] w = Onward-refl w.rt
    signals-Onward now pending ((topic, payload) ∷ signals) w =
        let w1 = handle_kill_signal cfg is_active now pending topic payload w in
        Onward-trans w.rt w1.rt _ (signal-Onward now pending topic payload w)
          (signals-Onward now pending signals w1)

    circuit-Onward :
        (now : ℕ) (pending : Payload F) (name : String) (payload : Payload F) (w : Run F)
        → Onward w.rt (break_circuit cfg is_active now pending name payload w).rt
    circuit-Onward now pending name payload w =
        let rt = record (untracked cfg is_active name w.rt) {
          disabled_agents = name ∷ w.rt.disabled_agents;
        } in
        if_both {A = Run F} (λ v. Onward w.rt v.rt) cfg.failure_disables
          (subst (Onward w.rt)
            (sym (alert-rt cfg "runtime_agent_disabled" payload "error" (set_rt cfg rt w)))
            (record { ticks = refl; stays = λ h. h; halts = λ h. h }))
          (engage-Onward now pending "runtime.circuit_breaker" _ payload w)

    failure-Onward :
        (now : ℕ) (pending : Payload F) (name : String) (w : Run F)
        → Onward w.rt (handle_agent_failure cfg is_active now pending name w).rt
    unfolding handle_agent_failure audit_runtime
    failure-Onward now pending name w =
        let count = count_or_zero cfg is_active (get name w.rt.failure_counts) + 1 in
        let w1 =
          set_rt cfg (record w.rt { failure_counts = put name count w.rt.failure_counts }) w in
        let p = failure_payload cfg is_active name count in
        let f : Onward w.rt w1.rt = record { ticks = refl; stays = λ h. h; halts = λ h. h } in
        if_both {A = Run F} (λ v. Onward w.rt v.rt) (ltb count cfg.failure_threshold) {x = w1} f
          (Onward-trans w.rt w1.rt _ f (
            circuit-Onward now pending name p
              (audit_runtime cfg "runtime_agent_circuit_breaker" p w1)))

    turn-Onward :
        (pending : Payload F) (name : String) (t : Turn F) (w : Run F)
        → Onward w.rt (take_turn cfg is_active pending name t w).rt
    turn-Onward pending name t w =
        let w0 = record w { acts = w.acts ++ (ran name ∷ []) } in
        let w1 = handle_all cfg is_active t.now pending t.signals w0 in
        let rt = record w1.rt { failure_counts = put name 0 w1.rt.failure_counts } in
        Onward-trans w.rt w1.rt _ (signals-Onward t.now pending t.signals w0) (
          if_both {A = Run F} (λ v. Onward w1.rt v.rt) t.raised
            (failure-Onward t.now pending name w1)
            (if_both {A = RuntimeState} (Onward w1.rt) (contains rt.disabled_agents name)
              (record { ticks = refl; stays = λ h. h; halts = λ h. h })
              (record { ticks = refl; stays = λ h. h; halts = λ h. h })))

    pub agents-Onward :
        (pending : Payload F) (turns : String → Turn F) (agents : List String) (w : Run F)
        → Onward w.rt (run_agents cfg is_active pending turns agents w).rt
    unfolding run_agents
    agents-Onward pending turns [] w = Onward-refl w.rt
    agents-Onward pending turns (a ∷ agents) w =
        let w1 =
          if contains w.rt.disabled_agents a
          then w
          else take_turn cfg is_active pending a (turns a) w in
        if_both {A = Run F} (λ v. Onward w.rt v.rt) (is_some w.rt.kill_switch_reason)
          (Onward-refl w.rt)
          (Onward-trans w.rt w1.rt _
            (if_both {A = Run F} (λ v. Onward w.rt v.rt) (contains w.rt.disabled_agents a)
              (Onward-refl w.rt) (turn-Onward pending a (turns a) w))
            (agents-Onward pending turns agents w1))

    stale-Onward :
        (now : ℕ) (pending : Payload F) (name : String) (age : ℕ) (w : Run F)
        → Onward w.rt (gone_stale cfg is_active now pending name age w).rt
    stale-Onward now pending name age w =
        let p = stale_payload cfg is_active name age in
        let w0 = set_rt cfg (record w.rt { stale_heartbeats = name ∷ w.rt.stale_heartbeats }) w in
        let w1 =
          alert cfg "runtime_heartbeat_stale" p "error"
            (audit_runtime cfg "runtime_heartbeat_stale" p w0) in
        let f =
          Onward-trans w.rt w0.rt w1.rt (record { ticks = refl; stays = λ h. h; halts = λ h. h })
            (told _ _ p p "error" w0) in
        if_both {A = Run F} (λ v. Onward w.rt v.rt) (not cfg.heartbeat_kill_enabled) {x = w1} f
          (Onward-trans w.rt w1.rt _ f (
            if_both {A = Run F} (λ v. Onward w1.rt v.rt) _
              (bypass-Onward "runtime.heartbeat" p "runtime.heartbeat" w1)
              (engage-Onward now pending "runtime.heartbeat" _ p w1)))

    each-Onward :
        (now : ℕ) (pending : Payload F) (beats : Dict ℕ) (w : Run F)
        → Onward w.rt (check_each cfg is_active now pending beats w).rt
    unfolding check_each
    each-Onward now pending [] w = Onward-refl w.rt
    each-Onward now pending ((name, seen) ∷ beats) w =
        let quiet =
          contains w.rt.disabled_agents name
          || leb (now - seen) cfg.heartbeat_timeout
          || contains w.rt.stale_heartbeats name in
        let w1 = if quiet then w else gone_stale cfg is_active now pending name (now - seen) w in
        Onward-trans w.rt w1.rt _
          (if_both {A = Run F} (λ v. Onward w.rt v.rt) quiet (Onward-refl w.rt)
            (stale-Onward now pending name (now - seen) w))
          (each-Onward now pending beats w1)

    pruned-Onward :
        (names : List String) (rt : RuntimeState) → Onward rt (pruned cfg is_active names rt)
    pruned-Onward [] rt = Onward-refl rt
    pruned-Onward (a ∷ names) rt =
        Onward-trans rt (untracked cfg is_active a rt) _
          (record { ticks = refl; stays = λ h. h; halts = λ h. h })
          (pruned-Onward names (untracked cfg is_active a rt))

    pub heartbeats-Onward :
        (now : ℕ) (pending : Payload F) (w : Run F)
        → Onward w.rt (check_heartbeats cfg is_active now pending w).rt
    unfolding check_heartbeats
    heartbeats-Onward now pending w =
        let rt = pruned cfg is_active w.rt.disabled_agents w.rt in
        if_both {A = Run F} (λ v. Onward w.rt v.rt) cfg.heartbeat_monitor_enabled
          (Onward-trans w.rt rt _ (pruned-Onward w.rt.disabled_agents w.rt)
            (each-Onward now pending rt.heartbeats (set_rt cfg rt w)))
          (Onward-refl w.rt)

    pub reports-Onward :
        (breaches : List (String × Payload F)) (w : Run F)
        → Onward w.rt (report_all cfg is_active breaches w).rt
    reports-Onward [] w = Onward-refl w.rt
    reports-Onward ((name, payload) ∷ breaches) w =
        Onward-trans w.rt _ _ (told name name payload payload "error" w) (reports-Onward breaches _)
