-- ===== src/Runtime/KillSwitch.antt =====
-- The kill switch is a latch, and it outlives the process (src/agents/runtime.py with src/infra/runtime_state.py).
use agenthedge.Prelude.{
  ℕ, ◌≡◌, refl, Bool, true, false, Option, none, some, List, [], ◌∷◌, String, is_some,
  if◌then◌else◌, if_both,
}
use agenthedge.Values.{Payload, get_value, nonempty_text}
use agenthedge.Lease.{StateDb, renew_lease}
use agenthedge.Runtime.State.{
  RuntimeSettings, Act, Run, alert, set_rt, break_glass_active, engage_kill_switch,
  handle_kill_signal, record_bypass, reason_of,
}
use agenthedge.Runtime.Iteration.{
  Meets, handle_all, run_iteration, refreshed, renewed, go_on, renew_and_go,
}

-- A guard on the reason that is there.
guarded :
    {A : Type 0} (P : A → Type 0) (r : Option String) (reason : String) (x y : A)
    → r ≡ some reason
    → P x
    → P (if is_some r then x else y)
guarded P none reason x y e p = absurd (cc)
guarded P (some s) reason x y e p = p

unless :
    {A : Type 0} (P : A → Type 0) (b : Bool) (x y : A) → b ≡ false → P y → P (if b then x else y)
unless P false x y e p = p
unless P true x y e p = absurd (cc)

module _ {F : Type 0} (cfg : RuntimeSettings F) where
  pub alert-rt :
      (name : String) (p : Payload F) (severity : String) (w : Run F)
      → (alert cfg name p severity w).rt ≡ w.rt
  unfolding alert
  alert-rt name p severity w =
      if_both {A = Run F} (λ v. v.rt ≡ w.rt) cfg.alerts {x = record w { acts = _ }} {y = w} refl
        refl

  pub alert-db :
      (name : String) (p : Payload F) (severity : String) (w : Run F)
      → (alert cfg name p severity w).db ≡ w.db
  unfolding alert
  alert-db name p severity w =
      if_both {A = Run F} (λ v. v.db ≡ w.db) cfg.alerts {x = record w { acts = _ }} {y = w} refl
        refl

  module _ (is_active : String → Bool) where
    -- the iterations that a runtime goes through
    abbrev pub iterate : List (Bool × Meets F) → Run F → Run F
    iterate [] w = w
    iterate ((enforce, m) ∷ ticks) w = iterate ticks (run_iteration cfg is_active enforce m w)

    -- It is killed for a reason, after so many ticks, with nothing more done than that.
    pub record IsKilled (reason : String) (ticks : ℕ) (acts : List (Act F)) (w : Run F)
        : Type 0 where
      pub killed : w.rt.kill_switch_reason ≡ some reason
      pub counted : w.rt.tick_count ≡ ticks
      pub idle : w.acts ≡ acts

    engage-IsKilled :
        (now : ℕ) (pending : Payload F) (trigger why : String) (payload : Payload F)
        (reason : String) (ticks : ℕ) (acts : List (Act F)) (w : Run F)
        → IsKilled reason ticks acts w
        → IsKilled reason ticks acts
            (engage_kill_switch cfg is_active now pending trigger why payload w)
    unfolding engage_kill_switch
    engage-IsKilled now pending trigger why payload reason ticks acts w k =
        guarded (IsKilled reason ticks acts) w.rt.kill_switch_reason reason w _ k.killed k

    -- no override of the kill switch is in force
    abbrev Off : Type 0
    Off = break_glass_active cfg is_active "runtime.kill_switch" ≡ false

    -- A signal finds the switch engaged.
    handle_all-IsKilled :
        (signals : List (String × Payload F)) (now : ℕ) (pending : Payload F) (reason : String)
        (ticks : ℕ) (acts : List (Act F)) (w : Run F)
        → Off
        → IsKilled reason ticks acts w
        → IsKilled reason ticks acts (handle_all cfg is_active now pending signals w)
    unfolding handle_kill_signal
    handle_all-IsKilled [] now pending reason ticks acts w off k = k
    handle_all-IsKilled ((topic, payload) ∷ signals) now pending reason ticks acts w off k =
        handle_all-IsKilled signals now pending reason ticks acts
          (handle_kill_signal cfg is_active now pending topic payload w) off
          (unless (IsKilled reason ticks acts)
            (break_glass_active cfg is_active "runtime.kill_switch")
            (record_bypass cfg is_active "runtime.kill_switch" payload topic w) _ off
            (engage-IsKilled now pending topic
              (reason_of cfg is_active (nonempty_text (get_value "reason" payload))) payload reason
              ticks acts w k))

    go_on-IsKilled :
        (m : Meets F) (reason : String) (ticks : ℕ) (acts : List (Act F)) (w : Run F)
        → Off
        → IsKilled reason ticks acts w
        → IsKilled reason ticks acts (go_on cfg is_active m w)
    go_on-IsKilled m reason ticks acts w off k =
        guarded (IsKilled reason ticks acts) w.rt.kill_switch_reason reason _ _ k.killed
          (handle_all-IsKilled m.signals m.now m.pending reason ticks acts w off k)

    renew_and_go-IsKilled :
        (m : Meets F) (token : Option ℕ) (reason : String) (ticks : ℕ) (acts : List (Act F))
        (w : Run F)
        → Off
        → IsKilled reason ticks acts w
        → IsKilled reason ticks acts (renew_and_go cfg is_active m token w)
    renew_and_go-IsKilled m none reason ticks acts w off k =
        go_on-IsKilled m reason ticks acts w off k
    renew_and_go-IsKilled m (some token) reason ticks acts w off k =
        go (renew_lease m.now cfg.instance_id cfg.runtime_name token cfg.lease_seconds w.db)
      where
        go : (r : Bool × StateDb F) → IsKilled reason ticks acts (renewed cfg is_active m w r)
        go (true, db) =
            go_on-IsKilled m reason ticks acts (record w { db = db }) off
              (record { killed = k.killed; counted = k.counted; idle = k.idle })
        go (false, db) = handle_all-IsKilled m.signals m.now m.pending reason ticks acts _ off (
            engage-IsKilled m.now m.pending "runtime.fencing" "runtime_lease_lost" _ reason ticks
              acts (record w { db = db })
              (record { killed = k.killed; counted = k.counted; idle = k.idle }))

    iterate-kept :
        (steps : List (Bool × Meets F)) (reason : String) (ticks : ℕ) (acts : List (Act F))
        (w : Run F)
        → Off
        → IsKilled reason ticks acts w
        → IsKilled reason ticks acts (iterate steps w)
    unfolding run_iteration
    iterate-kept [] reason ticks acts w off k = k
    iterate-kept ((enforce, m) ∷ steps) reason ticks acts w off k =
        let w1 = set_rt cfg (refreshed cfg is_active enforce w.rt) w in
        iterate-kept steps reason ticks acts (run_iteration cfg is_active enforce m w) off (
          renew_and_go-IsKilled m w1.rt.fence_token reason ticks acts w1 off
            (record { killed = k.killed; counted = k.counted; idle = k.idle }))

    -- A runtime whose kill switch is engaged, with no override of it in force, stays so for the same reason
    -- whatever its further iterations and the signals meanwhile are: nothing more is done and the ticks
    -- are not counted.
    pub iterate-IsKilled :
        (ticks : List (Bool × Meets F)) (reason : String) (w : Run F)
        → Off
        → w.rt.kill_switch_reason ≡ some reason
        → IsKilled reason w.rt.tick_count w.acts (iterate ticks w)
    iterate-IsKilled ticks reason w off e =
        iterate-kept ticks reason w.rt.tick_count w.acts w off
          (record { killed = e; counted = refl; idle = refl })
