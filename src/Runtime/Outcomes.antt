-- ===== src/Runtime/Outcomes.antt =====
-- A mismatch with the broker and a critical alarm stop the runtime for good (src/agents/runtime.py).
use agenthedge.Prelude.{
  ℕ, ◌≡◌, refl, ap, Bool, false, ◌||◌, Option, none, some, List, [], ◌∷◌, String, if◌then◌else◌,
  arith, ◌++◌,
}
use Prim.Native.String.{◌++◌ as append}
use agenthedge.Values.{Payload}
use agenthedge.Floats.{Floats}
use agenthedge.Lease.{save_checkpoint}
use agenthedge.Broker.{Mismatch}
use agenthedge.Anomaly.{AnomalyResult, Detector}
use agenthedge.Anomaly.Alarm.{IsAlarm, IsQuiet}
use agenthedge.Runtime.State.{
  RuntimeSettings, Run, audit_runtime, alert, set_rt, persist_checkpoint, checkpoint_row,
  break_glass_active, engage_kill_switch, killed_rt, kill_payload,
}
use agenthedge.Runtime.Iteration.{Meets}
use agenthedge.Runtime.KillSwitch.{alert-rt, IsKilled, iterate, iterate-IsKilled}
use agenthedge.Runtime.Restart.{unguarded, otherwise, persisted-reason}
use agenthedge.Runtime.Reports.{reconcile_execution}

module _ {F : Type 0} (cfg : RuntimeSettings F) (is_active : String → Bool) where
  -- no override lets the trigger pass
  abbrev pub Unbypassed : String → Type 0
  Unbypassed trigger =
      (break_glass_active cfg is_active "runtime.kill_switch"
        || break_glass_active cfg is_active trigger)
      ≡ false

  engage-reason :
      (now : ℕ) (pending : Payload F) (trigger reason : String) (payload : Payload F) (w : Run F)
      → w.rt.kill_switch_reason ≡ none
      → Unbypassed trigger
      → (engage_kill_switch cfg is_active now pending trigger reason payload
          w).rt.kill_switch_reason
        ≡ some reason
  unfolding engage_kill_switch persist_checkpoint
  engage-reason now pending trigger reason payload w e a =
      let p = kill_payload cfg is_active trigger reason payload in
      let w1 =
        audit_runtime cfg "runtime_kill_switch" p
          (set_rt cfg (killed_rt cfg is_active trigger reason w.rt) w) in
      let w2 = alert cfg "runtime_kill_switch" p "critical" w1 in
      unguarded {A = Run F} (λ v. v.rt.kill_switch_reason ≡ some reason) w.rt.kill_switch_reason w _
        e
        (otherwise {A = Run F} (λ v. v.rt.kill_switch_reason ≡ some reason) _ _ _ a
          (persisted-reason cfg reason w2
            (save_checkpoint now cfg.instance_id cfg.runtime_name w2.rt.fence_token
              (checkpoint_row cfg w2.rt pending) w2.db)
            (ap (λ r. r.kill_switch_reason) (alert-rt cfg "runtime_kill_switch" p "critical" w1))))

  -- what a reconciliation comes to for the iterations after it
  abbrev pub Reconciled : List (Mismatch F) → List (Bool × Meets F) → Run F → Run F → Type 0
  Reconciled [] ticks w w1 = w1.rt ≡ w.rt
  Reconciled (m ∷ ms) ticks w w1 =
      IsKilled cfg is_active "execution_reconciliation_mismatch" w1.rt.tick_count w1.acts
        (iterate cfg is_active ticks w1)

  -- On a running runtime, with no override of the kill switch or of the reconciliation in force: a
  -- reconciliation that finds a mismatch kills it for that reason, and then whatever its iterations
  -- meet, no agent is run and no tick is counted; one that finds none leaves the runtime's state as
  -- it is.
  pub reconcile_execution-outcome :
      (now : ℕ) (pending : Payload F) (ms : List (Mismatch F)) (result : Payload F) (w : Run F)
      (ticks : List (Bool × Meets F))
      → w.rt.kill_switch_reason ≡ none
      → Unbypassed "runtime.execution_reconciliation"
      → Reconciled ms ticks w (reconcile_execution cfg is_active now pending ms result w)
  unfolding reconcile_execution audit_runtime
  reconcile_execution-outcome now pending [] result w ticks e a = refl
  reconcile_execution-outcome now pending (m ∷ ms) result w ticks e a =
      iterate-IsKilled cfg is_active ticks "execution_reconciliation_mismatch" _ (ground arith) (
        engage-reason now pending "runtime.execution_reconciliation"
          "execution_reconciliation_mismatch" result
          (audit_runtime cfg "runtime_execution_reconciliation_mismatch" result w) e a)

module _ (fl : Floats) (cfg : RuntimeSettings (Floats.F fl)) (is_active : String → Bool) where
  open fl use {F, le_f}

  -- the alarm of a fill, and what it makes of a running runtime
  abbrev pub Alarmed :
      (List ℕ → F) → (List ℕ → F) → (ℕ → F) → Option (AnomalyResult F) → Detector F → Run F → Type 0
  Alarmed fmean pstdev of_count none detector w =
      IsQuiet fl fmean pstdev of_count "execution.fill" detector × (w.rt.kill_switch_reason ≡ none)
  Alarmed fmean pstdev of_count (some r) detector w =
      IsAlarm fl fmean pstdev of_count "execution.fill" r detector
      × (w.rt.kill_switch_reason
          ≡ (if r.is_critical then some (append "behavior_anomaly:" r.metric) else none))
