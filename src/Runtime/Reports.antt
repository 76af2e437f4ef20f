-- ===== src/Runtime/Reports.antt =====
-- What the runtime does with the reconciliation of the broker and with an alarm of the detector
-- (src/agents/runtime.py, `reconcile_execution` and `_handle_execution_fill_for_anomaly`).
use agenthedge.Prelude.{
  ℕ, Bool, true, false, Option, none, some, List, [], ◌∷◌, String, if◌then◌else◌,
}
use Prim.Native.String.{◌++◌ as append}
use agenthedge.Values.{Value, text, number, Payload}
use agenthedge.Floats.{Floats}
use agenthedge.Broker.{Mismatch}
use agenthedge.Anomaly.{AnomalyResult, Detector, record_event}
use agenthedge.Runtime.State.{RuntimeSettings, Run, audit_runtime, alert, engage_kill_switch}

module _ {F : Type 0} (cfg : RuntimeSettings F) (is_active : String → Bool) where
  -- `reconcile_execution`, of the mismatches that the broker finds and its whole result as a dict
  unfoldable pub reconcile_execution : ℕ → Payload F → List (Mismatch F) → Payload F → Run F → Run F
  unfolding audit_runtime engage_kill_switch
  reconcile_execution now pending [] result w =
      audit_runtime cfg "runtime_execution_reconciliation_ok" result w
  reconcile_execution now pending (m ∷ ms) result w =
      engage_kill_switch cfg is_active now pending "runtime.execution_reconciliation"
        "execution_reconciliation_mismatch" result
        (audit_runtime cfg "runtime_execution_reconciliation_mismatch" result w)

  abbrev pub severity : Bool → String
  severity true = "critical"
  severity false = "warning"

  abbrev pub anomaly_payload : Value F → AnomalyResult F → Payload F
  anomaly_payload event_id r =
      ("metric", text r.metric)
      ∷ ("value", number r.value)
      ∷ ("baseline", number r.baseline)
      ∷ ("zscore", number r.zscore)
      ∷ ("severity", text (severity r.is_critical))
      ∷ ("event_id", event_id)
      ∷ []

  abbrev pub on_anomaly : ℕ → Payload F → Value F → Option (AnomalyResult F) → Run F → Run F
  on_anomaly now pending event_id none w = w
  on_anomaly now pending event_id (some r) w =
      let payload = anomaly_payload event_id r in
      let w1 =
        alert cfg "runtime_behavior_anomaly" payload (severity r.is_critical)
          (audit_runtime cfg "runtime_behavior_anomaly" payload w) in
      if r.is_critical
      then engage_kill_switch cfg is_active now pending "runtime.anomaly"
          (append "behavior_anomaly:" r.metric) payload w1
      else w1

module _ (fl : Floats) (cfg : RuntimeSettings (Floats.F fl)) (is_active : String → Bool) where
  open fl use {F}

  -- `_handle_execution_fill_for_anomaly`
  unfoldable pub handle_execution_fill :
      (List ℕ → F)
      → (List ℕ → F)
      → (ℕ → F)
      → ℕ
      → Payload F
      → Value F
      → Detector F
      → Run F
      → Detector F × Run F
  unfolding record_event audit_runtime alert engage_kill_switch
  handle_execution_fill fmean pstdev of_count now pending event_id detector w =
      let (result, detector') =
        record_event fl fmean pstdev of_count "execution.fill" now detector in
      (detector', on_anomaly cfg is_active now pending event_id result w)
