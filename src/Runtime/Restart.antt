-- ===== src/Runtime/Restart.antt =====
-- The kill switch outlives the process (src/agents/runtime.py with src/infra/runtime_state.py).
use agenthedge.Prelude.{
  ℕ, ◌≡◌, refl, sym, ap, ◌∙◌, subst, Bool, true, false, ◌||◌, Option, none, some, List, [], ◌∷◌,
  String, get, put, get-put_self, All, is_some, if◌then◌else◌, if_both, ◌==◌, Result, ok, err, ltb,
}
use agenthedge.Values.{Payload, text, number}
use agenthedge.Lease.{
  StateDb, CheckpointRow, Grant, FenceError, is_held, save_checkpoint, acquire_lease, try_acquire,
  load_checkpoint, loaded, nonempty, mark_started, record_incident,
}
use agenthedge.Lease.Fencing.{Call, perform_all}
use agenthedge.Runtime.State.{
  RuntimeSettings, RuntimeState, Run, audit_runtime, alert, set_rt, persisted, persist_checkpoint,
  checkpoint_row, engage_kill_switch, break_glass_active, killed_rt, kill_payload, fenced_rt,
  fence_payload,
}
use agenthedge.Runtime.Boot.{
  restore_checkpoint, restored, restored_reason, leased, failover_checked, acquire_runtime_lease,
  counted, with_agents, booted, bootstrap,
}
use agenthedge.Runtime.KillSwitch.{alert-rt, alert-db}
use agenthedge.Runtime.Stored.{HasReason, Leaves, try_acquire-checkpoints, perform_all-checkpoints}

pub unguarded :
    {A : Type 0} (P : A → Type 0) (r : Option String) (x y : A)
    → r ≡ none
    → P y
    → P (if is_some r then x else y)
unguarded P none x y e p = p
unguarded P (some s) x y e p = absurd (cc)

pub otherwise :
    {A : Type 0} (P : A → Type 0) (b : Bool) (x y : A) → b ≡ false → P y → P (if b then x else y)
otherwise P true x y e p = absurd (cc)
otherwise P false x y e p = p

fenced-reason :
    (r : Option String) (reason : String)
    → r ≡ some reason
    → (if is_some r then r else some "checkpoint_fence_lost") ≡ some reason
fenced-reason none reason e = cc
fenced-reason (some s) reason e = e

module _ {F : Type 0} (cfg : RuntimeSettings F) where
  saved-HasReason :
      (now : ℕ) (pending : Payload F) (reason : String) (token : ℕ) (w : Run F)
      → w.rt.kill_switch_reason ≡ some reason
      → is_held cfg.instance_id token now (get cfg.runtime_name w.db.leases) ≡ true
      → HasReason reason (
          get cfg.runtime_name
            (persisted cfg w (
              save_checkpoint now cfg.instance_id cfg.runtime_name
                (some token)
                (checkpoint_row cfg w.rt pending)
                w.db)).db.checkpoints)
  unfolding save_checkpoint
  saved-HasReason now pending reason token w e h = rw h (
      subst (HasReason reason)
        (sym
          (get-put_self cfg.runtime_name (checkpoint_row cfg w.rt pending token) w.db.checkpoints))
        e)

  persist-HasReason :
      (now : ℕ) (pending : Payload F) (reason : String) (token : ℕ) (w : Run F)
      → w.rt.kill_switch_reason ≡ some reason
      → w.rt.fence_token ≡ some token
      → is_held cfg.instance_id token now (get cfg.runtime_name w.db.leases) ≡ true
      → HasReason reason
          (get cfg.runtime_name (persist_checkpoint cfg now pending w).db.checkpoints)
  unfolding persist_checkpoint
  persist-HasReason now pending reason token w e f h = go w.rt.fence_token f
    where
      go :
          (t : Option ℕ)
          → t ≡ some token
          → HasReason reason (
              get cfg.runtime_name
                (persisted cfg w (
                  save_checkpoint now cfg.instance_id cfg.runtime_name t
                    (checkpoint_row cfg w.rt pending)
                    w.db)).db.checkpoints)
      go none q = absurd (cc)
      go (some t) q =
          subst
            (λ o. HasReason reason (
              get cfg.runtime_name
                (persisted cfg w (
                  save_checkpoint now cfg.instance_id cfg.runtime_name o
                    (checkpoint_row cfg w.rt pending) w.db)).db.checkpoints))
            (sym q) (saved-HasReason now pending reason token w e h)

  -- an engaged kill switch is in the checkpoint
  engage-HasReason :
      (is_active : String → Bool) (now : ℕ) (pending : Payload F) (trigger reason : String)
      (payload : Payload F) (token : ℕ) (w : Run F)
      → w.rt.kill_switch_reason ≡ none
      → (break_glass_active cfg is_active "runtime.kill_switch"
          || break_glass_active cfg is_active trigger)
        ≡ false
      → w.rt.fence_token ≡ some token
      → is_held cfg.instance_id token now (get cfg.runtime_name w.db.leases) ≡ true
      → HasReason reason (
          get cfg.runtime_name
            (engage_kill_switch cfg is_active now pending trigger reason payload w).db.checkpoints)
  unfolding engage_kill_switch persist_checkpoint
  engage-HasReason is_active now pending trigger reason payload token w e a f h =
      let w1 =
        audit_runtime cfg "runtime_kill_switch" (kill_payload cfg is_active trigger reason payload)
          (set_rt cfg (killed_rt cfg is_active trigger reason w.rt) w) in
      let w2 =
        alert cfg "runtime_kill_switch" (kill_payload cfg is_active trigger reason payload)
          "critical" w1 in
      let rt =
        alert-rt cfg "runtime_kill_switch" (kill_payload cfg is_active trigger reason payload)
          "critical" w1 in
      let db =
        alert-db cfg "runtime_kill_switch" (kill_payload cfg is_active trigger reason payload)
          "critical" w1 in
      unguarded (λ v. HasReason reason (get cfg.runtime_name v.db.checkpoints))
        w.rt.kill_switch_reason w _ e
        (otherwise {A = Run F} (λ v. HasReason reason (get cfg.runtime_name v.db.checkpoints)) _ _ _
          a
          (persist-HasReason now pending reason token w2 (ap (λ r. r.kill_switch_reason) rt)
            (ap (λ r. r.fence_token) rt ∙ f)
            (ap (λ d. is_held cfg.instance_id token now (get cfg.runtime_name d.leases)) db ∙ h)))

  -- a restart restores it
  pub persisted-reason :
      (reason : String) (w : Run F) (r : Result FenceError Unit × StateDb F)
      → w.rt.kill_switch_reason ≡ some reason
      → (persisted cfg w r).rt.kill_switch_reason ≡ some reason
  unfolding audit_runtime
  persisted-reason reason w (ok u, db) e = e
  persisted-reason reason w (err x, db) e =
      let p = fence_payload cfg w.rt x in
      let w1 =
        audit_runtime cfg "runtime_checkpoint_fence_lost" p (set_rt cfg (fenced_rt cfg w.rt) w) in
      if_both {A = Run F} (λ v. v.rt.kill_switch_reason ≡ some reason) w.rt.checkpoint_fence_lost
        {x = w} {y = alert cfg "runtime_checkpoint_fence_lost" p "critical" w1} e
        (ap (λ r. r.kill_switch_reason)
            (alert-rt cfg "runtime_checkpoint_fence_lost" p "critical" w1)
          ∙ fenced-reason w.rt.kill_switch_reason reason e)

  counted-reason :
      (names : List String) (now : ℕ) (rt : RuntimeState)
      → (counted cfg names now rt).kill_switch_reason ≡ rt.kill_switch_reason
  counted-reason [] now rt = refl
  counted-reason (a ∷ names) now rt = counted-reason names now (record rt {
    failure_counts = put a 0 rt.failure_counts;
    heartbeats = put a now rt.heartbeats;
  })

  restored-reason :
      (reason : String) (r : Option (CheckpointRow F)) (rt : RuntimeState)
      → HasReason reason r
      → (reason == "") ≡ false
      → (restored cfg (loaded r) rt).kill_switch_reason ≡ some reason
  restored-reason reason none rt h n = absurd h
  restored-reason reason (some row) rt h n =
      subst
        (λ o.
          (restored_reason cfg (nonempty o) (nonempty row.kill_switch_trigger) (record rt {
            tick_count = row.tick_count;
            bus_checkpoint = row.bus_checkpoint;
          })).kill_switch_reason
          ≡ some reason)
        (sym h) (rw n (rw n refl))

  failover-db :
      (seconds : Option ℕ) (w : Run F)
      → (failover_checked cfg seconds w).db.checkpoints ≡ w.db.checkpoints
  unfolding audit_runtime record_incident
  failover-db none w = refl
  failover-db (some seconds) w =
      let p : Payload F =
        ("runtime_name", text cfg.runtime_name)
        ∷ ("failover_time_seconds", number (cfg.of_count seconds))
        ∷ ("threshold", number (cfg.of_count cfg.failover_threshold))
        ∷ [] in
      if_both {A = Run F} (λ v. v.db.checkpoints ≡ w.db.checkpoints)
        (ltb cfg.failover_threshold seconds)
        {x = alert cfg "runtime_failover_time_slo_breach" p "error"
          (audit_runtime cfg "runtime_failover_time_slo_breach" p w)}
        {y = w}
        (ap (λ d. d.checkpoints)
          (alert-db cfg "runtime_failover_time_slo_breach" p "error"
            (audit_runtime cfg "runtime_failover_time_slo_breach" p w)))
        refl

  leased-checkpoints :
      (w : Run F) (g : Grant) (db : StateDb F)
      → (leased cfg w (g, db)).1.db.checkpoints ≡ db.checkpoints
  leased-checkpoints w g db =
      if_both {A = Bool × Run F} (λ r. r.1.db.checkpoints ≡ db.checkpoints) g.acquired
        {x = (
          true,
          failover_checked cfg g.failover_seconds
              (record w { db = db; rt = record w.rt { fence_token = some g.token } }),
        )}
        {y = (false, record w { db = db })}
        (failover-db g.failover_seconds
          (record w { db = db; rt = record w.rt { fence_token = some g.token } }))
        refl

  acquire-checkpoints :
      (db_now own_now : ℕ) (w : Run F)
      → (acquire_runtime_lease cfg db_now own_now w).1.db.checkpoints ≡ w.db.checkpoints
  unfolding acquire_runtime_lease acquire_lease
  acquire-checkpoints db_now own_now w =
      let r =
        try_acquire db_now own_now cfg.instance_id cfg.lease_seconds cfg.runtime_name
          (get cfg.runtime_name w.db.leases) w.db in
      leased-checkpoints w r.0 r.1
      ∙ try_acquire-checkpoints db_now own_now cfg.instance_id cfg.lease_seconds cfg.runtime_name
          (get cfg.runtime_name w.db.leases) w.db

  booted-reason :
      (now : ℕ) (pending : Payload F) (names : List String) (reason : String) (r : Bool × Run F)
      → HasReason reason (get cfg.runtime_name r.1.db.checkpoints)
      → (reason == "") ≡ false
      → (booted cfg now pending names r).0 ≡ true
      → (booted cfg now pending names r).1.rt.kill_switch_reason ≡ some reason
  unfolding persist_checkpoint restore_checkpoint load_checkpoint
  booted-reason now pending names reason (false, w) h n b = cc
  booted-reason now pending [] reason (true, w) h n b = cc
  booted-reason now pending (a ∷ names) reason (true, w) h n b =
      let rt = restored cfg (loaded (get cfg.runtime_name w.db.checkpoints)) w.rt in
      let w2 = record w {
        rt = with_agents cfg (a ∷ names) now rt;
        db = mark_started now cfg.instance_id cfg.profile cfg.backend w.db;
      } in
      persisted-reason reason w2
        (save_checkpoint now cfg.instance_id cfg.runtime_name w2.rt.fence_token
          (checkpoint_row cfg w2.rt pending) w2.db)
        (counted-reason (a ∷ names) now
            (record rt { agents = a ∷ names; failure_counts = []; heartbeats = [] })
          ∙ restored-reason reason (get cfg.runtime_name w.db.checkpoints) w.rt h n)

-- An engaged kill switch outlives the process. A runtime engages it for a reason that is a text, with
-- no override of the control or the trigger, while it holds its lease. Then, whatever any instances do
-- with the tables, short of writing that runtime's checkpoint, each bootstrap of a runtime of the same
-- name that succeeds gives a runtime that is killed for that reason.
pub bootstrap-killed :
    {F : Type 0} (cfg other : RuntimeSettings F) (is_active : String → Bool) (now : ℕ)
    (pending : Payload F) (trigger reason : String) (payload : Payload F) (token : ℕ) (w : Run F)
    (calls : List (Call F)) (db_now own_now : ℕ) (pending' : Payload F) (names : List String)
    (v : Run F)
    → w.rt.kill_switch_reason ≡ none
    → (break_glass_active cfg is_active "runtime.kill_switch"
        || break_glass_active cfg is_active trigger)
      ≡ false
    → w.rt.fence_token ≡ some token
    → is_held cfg.instance_id token now (get cfg.runtime_name w.db.leases) ≡ true
    → (reason == "") ≡ false
    → other.runtime_name ≡ cfg.runtime_name
    → All (Leaves cfg.runtime_name) calls
    → v.db
      ≡ perform_all calls (engage_kill_switch cfg is_active now pending trigger reason payload w).db
    → (bootstrap other db_now own_now pending' names v).0 ≡ true
    → (bootstrap other db_now own_now pending' names v).1.rt.kill_switch_reason ≡ some reason
unfolding bootstrap
bootstrap-killed cfg other is_active now pending trigger reason payload token w calls db_now own_now
      pending' names v none_yet clear held_token held named same leave stored boots =
    let killed = engage_kill_switch cfg is_active now pending trigger reason payload w in
    let found : get other.runtime_name
          (acquire_runtime_lease other db_now own_now v).1.db.checkpoints
        ≡ get cfg.runtime_name killed.db.checkpoints =
      ap (get other.runtime_name) (acquire-checkpoints other db_now own_now v)
      ∙ ap (λ n. get n v.db.checkpoints) same
      ∙ ap (λ d. get cfg.runtime_name d.checkpoints) stored
      ∙ perform_all-checkpoints cfg.runtime_name calls killed.db leave in
    booted-reason other db_now pending' names reason (acquire_runtime_lease other db_now own_now v)
      (subst (HasReason reason) (sym found) (
        engage-HasReason cfg is_active now pending trigger reason payload token w none_yet clear
          held_token held))
      named boots
