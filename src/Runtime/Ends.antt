-- ===== src/Runtime/Ends.antt =====
-- The loop of the runtime ends within its bound on the ticks (src/agents/runtime.py, `_run_loop`).
use agenthedge.Prelude.{
  ℕ, suc, ◌+◌, ◌-◌, ◌≤◌, ◌<◌, ◌≡◌, ◌⊎◌, inl, inr, refl, ap, sym, subst, ◌∙◌, Bool, true, false,
  ◌&&◌, Option, none, some, List, [], ◌∷◌, String, length, is_some, if◌then◌else◌, Bool-cases, ltb,
  leb, arith,
}
use agenthedge.Values.{Payload, text}
use agenthedge.Lease.{StateDb, renew_lease, heartbeat}
use agenthedge.Runtime.State.{
  RuntimeSettings, RuntimeState, Run, audit_runtime, alert, set_rt, break_glass_active,
  engage_kill_switch, stop,
}
use agenthedge.Runtime.Iteration.{
  Meets, Wait, caught_up, timed_out, failed_wait, late_report, wait_for_bus, handle_all, run_agents,
  check_heartbeats, report_all, complete, after_wait, go_on, renewed, renew_and_go, refreshed,
  run_iteration,
}
use agenthedge.Runtime.Loop.{run_loop}
use agenthedge.Runtime.Onward.{
  Halts, Onward, Onward-refl, Onward-trans, told, persist-Onward, bypass-Onward, engage-Onward,
  signals-Onward, agents-Onward, heartbeats-Onward, reports-Onward,
}

below : (m t : ℕ) → 0 < m → (ltb 0 m && leb m t) ≡ false → t < m
below m t p e = ground arith

module _ {F : Type 0} (cfg : RuntimeSettings F) (is_active : String → Bool) where
  -- no override of the kill switch, or of the loss of the lease, is in force
  abbrev pub NoOverride : Type 0
  NoOverride =
      (break_glass_active cfg is_active "runtime.kill_switch" ≡ false)
      × (break_glass_active cfg is_active "runtime.fencing" ≡ false)

  engage-stops :
      (now : ℕ) (pending : Payload F) (trigger reason : String) (payload : Payload F) (w : Run F)
      → Halts cfg w.rt
      → break_glass_active cfg is_active "runtime.kill_switch" ≡ false
      → break_glass_active cfg is_active trigger ≡ false
      → (engage_kill_switch cfg is_active now pending trigger reason payload w).rt.stopped ≡ true
  unfolding engage_kill_switch
  engage-stops now pending trigger reason payload w h a b =
      elim (Bool-cases (is_some w.rt.kill_switch_reason)) [
        | inl e ↦ rw e (h e)
        | inr e ↦ rw (e, a, b) refl
      ]

  -- A wait that is not over has engaged the kill switch.
  late-lem :
      (now : ℕ) (pending : Payload F) (reason : String) (payload : Payload F) (w : Run F)
      → Halts cfg w.rt
      → break_glass_active cfg is_active "runtime.kill_switch" ≡ false
      → let r = late_report cfg is_active now pending reason payload w in
        Onward cfg w.rt r.1.rt × (r.0 ≡ false → r.1.rt.stopped ≡ true)
  late-lem now pending reason payload w h a =
      let w1 =
        alert cfg "runtime_bus_catchup_timeout" payload "critical"
          (audit_runtime cfg "runtime_bus_catchup_timeout" payload w) in
      let f =
        told cfg "runtime_bus_catchup_timeout" "runtime_bus_catchup_timeout" payload payload
          "critical" w in
      elim (Bool-cases (break_glass_active cfg is_active "runtime.bus")) [
        | inl e ↦ rw e (
          Onward-trans cfg w.rt w1.rt _ f
              (bypass-Onward cfg is_active "runtime.bus" payload "runtime.bus" w1),
          λ q. absurd (cc),
        )
        | inr e ↦ rw e (
          Onward-trans cfg w.rt w1.rt _ f
              (engage-Onward cfg is_active now pending "runtime.bus" reason payload w1),
          λ q. engage-stops now pending "runtime.bus" reason payload w1 (f.halts h) a e,
        )
      ]

  wait-lem :
      (now : ℕ) (pending : Payload F) (wait : Wait F) (w : Run F)
      → Halts cfg w.rt
      → break_glass_active cfg is_active "runtime.kill_switch" ≡ false
      → let r = wait_for_bus cfg is_active now pending wait w in
        Onward cfg w.rt r.1.rt × (r.0 ≡ false → r.1.rt.stopped ≡ true)
  unfolding wait_for_bus
  wait-lem now pending caught_up w h a = (Onward-refl cfg w.rt, λ q. absurd (cc))
  wait-lem now pending (timed_out payload) w h a =
      late-lem now pending "bus_catchup_timeout" payload w h a
  wait-lem now pending (failed_wait payload) w h a =
      late-lem now pending "bus_catchup_error" payload w h a

  -- One more tick is counted, or the loop is told to end.
  pub record Advances (rt rt' : RuntimeState) : Type 0 where
    pub halting : Halts cfg rt'
    pub counted : (rt'.stopped ≡ true) ⊎ (rt'.tick_count ≡ rt.tick_count + 1)

  Onward-Advances : (a b c : RuntimeState) → Onward cfg a b → Advances b c → Advances a c
  Onward-Advances a b c f g = record { halting = g.halting; counted = go g.counted }
    where
      go :
          (c.stopped ≡ true) ⊎ (c.tick_count ≡ b.tick_count + 1)
          → (c.stopped ≡ true) ⊎ (c.tick_count ≡ a.tick_count + 1)
      go (inl s) = inl s
      go (inr e) = inr (e ∙ ap (λ n. n + 1) f.ticks)

  complete-Advances :
      (m : Meets F) (w : Run F) → Halts cfg w.rt → Advances w.rt (complete cfg is_active m w).rt
  complete-Advances m w h =
      let w1 = check_heartbeats cfg is_active m.checked_at m.pending w in
      let rt = record w1.rt { tick_count = w1.rt.tick_count + 1; bus_checkpoint = m.checkpoint } in
      let w2 = record w1 { rt = rt; db = heartbeat m.checked_at cfg.instance_id "running" w1.db } in
      let f = heartbeats-Onward cfg is_active m.checked_at m.pending w in
      let g =
        Onward-trans cfg rt _ _ (reports-Onward cfg is_active m.breaches w2)
          (persist-Onward cfg m.checked_at m.pending (report_all cfg is_active m.breaches w2)) in
      record { halting = g.halts (f.halts h); counted = inr (g.ticks ∙ ap (λ n. n + 1) f.ticks) }

  after_wait-Advances :
      (m : Meets F) (rt : RuntimeState) (r : Bool × Run F)
      → Halts cfg rt
      → Onward cfg rt r.1.rt
      → (r.0 ≡ false → r.1.rt.stopped ≡ true)
      → Advances rt (after_wait cfg is_active m r).rt
  after_wait-Advances m rt (false, w) h f s =
      let g = signals-Onward cfg is_active m.now m.pending m.signals w in
      record { halting = g.halts (f.halts h); counted = inl (g.stays (s refl)) }
  after_wait-Advances m rt (true, w) h f s =
      let w1 = handle_all cfg is_active m.now m.pending m.signals w in
      let g = signals-Onward cfg is_active m.now m.pending m.signals w in
      let k = g.halts (f.halts h) in
      elim (Bool-cases (is_some w1.rt.kill_switch_reason)) [
        | inl e ↦ rw e (record { halting = k; counted = inl (k e) })
        | inr e ↦ rw e (
            Onward-Advances rt w1.rt _ (Onward-trans cfg rt w.rt w1.rt f g)
              (complete-Advances m w1 k))
      ]

  go_on-Advances :
      (m : Meets F) (w : Run F)
      → Halts cfg w.rt
      → w.rt.stopped ≡ false
      → NoOverride
      → Advances w.rt (go_on cfg is_active m w).rt
  go_on-Advances m w h s n = elim (Bool-cases (is_some w.rt.kill_switch_reason)) [
    | inl e ↦ absurd (cc (h e, s))
    | inr e ↦
        let w1 = run_agents cfg is_active m.pending m.turns w.rt.agents w in
        let f = agents-Onward cfg is_active m.pending m.turns w.rt.agents w in
        let l = wait-lem m.now m.pending m.wait w1 (f.halts h) n.0 in
        rw e (
          after_wait-Advances m w.rt (wait_for_bus cfg is_active m.now m.pending m.wait w1) h
            (Onward-trans cfg w.rt w1.rt _ f l.0) l.1)
  ]

  -- the lease is lost
  abbrev lost : Meets F → Run F → StateDb F → Run F
  lost m w db =
      engage_kill_switch cfg is_active m.now m.pending "runtime.fencing" "runtime_lease_lost"
        (("runtime_name", text cfg.runtime_name) ∷ []) (record w { db = db })

  -- the signals that come in after that
  late :
      (m : Meets F) (w : Run F) (db : StateDb F)
      → Onward cfg
          (lost m w db).rt
          (handle_all cfg is_active m.now m.pending m.signals (lost m w db)).rt
  late m w db = signals-Onward cfg is_active m.now m.pending m.signals (lost m w db)

  renew_and_go-Advances :
      (m : Meets F) (token : Option ℕ) (w : Run F)
      → Halts cfg w.rt
      → w.rt.stopped ≡ false
      → NoOverride
      → Advances w.rt (renew_and_go cfg is_active m token w).rt
  renew_and_go-Advances m none w h s n = go_on-Advances m w h s n
  renew_and_go-Advances m (some token) w h s n =
      go (renew_lease m.now cfg.instance_id cfg.runtime_name token cfg.lease_seconds w.db)
    where
      go : (r : Bool × StateDb F) → Advances w.rt (renewed cfg is_active m w r).rt
      go (true, db) = go_on-Advances m (record w { db = db }) h s n
      go (false, db) = record {
        halting = (late m w db).halts (
            (engage-Onward cfg is_active m.now m.pending "runtime.fencing" "runtime_lease_lost" _
                (record w { db = db })).halts
              h);
        counted = inl (
            (late m w db).stays (
              engage-stops m.now m.pending "runtime.fencing" "runtime_lease_lost" _
                (record w { db = db }) h n.0 n.1));
      }

  run_iteration-Advances :
      (enforce : Bool) (m : Meets F) (w : Run F)
      → Halts cfg w.rt
      → w.rt.stopped ≡ false
      → NoOverride
      → Advances w.rt (run_iteration cfg is_active enforce m w).rt
  unfolding run_iteration
  run_iteration-Advances enforce m w h s n =
      let w1 = set_rt cfg (refreshed cfg is_active enforce w.rt) w in
      let a = renew_and_go-Advances m w1.rt.fence_token w1 h s n in
      record { halting = a.halting; counted = a.counted }

  run_loop-stopped :
      (max_ticks : ℕ) (ms : List (Bool × Meets F)) (w : Run F)
      → w.rt.stopped ≡ true
      → run_loop cfg is_active max_ticks ms w ≡ (0, w)
  unfolding run_loop
  run_loop-stopped max_ticks [] w e = refl
  run_loop-stopped max_ticks ((enforce, m) ∷ ms) w e = rw e refl

  -- the runtime after an iteration, with the bound on the ticks
  abbrev next : ℕ → Bool → Meets F → Run F → Run F
  next max_ticks enforce m w =
      let w1 = run_iteration cfg is_active enforce m w in
      if ltb 0 max_ticks && leb max_ticks w1.rt.tick_count then stop cfg is_active w1 else w1

  run_loop-next :
      (max_ticks : ℕ) (enforce : Bool) (m : Meets F) (ms : List (Bool × Meets F)) (w : Run F)
      → w.rt.stopped ≡ false
      → let rest = run_loop cfg is_active max_ticks ms (next max_ticks enforce m w) in
        run_loop cfg is_active max_ticks ((enforce, m) ∷ ms) w ≡ (suc rest.0, rest.1)
  unfolding run_loop
  run_loop-next max_ticks enforce m ms w e =
      let rest = run_loop cfg is_active max_ticks ms (next max_ticks enforce m w) in
      ap (λ c. if◌then◌else◌ {A = ℕ × Run F} c (0, w) (suc rest.0, rest.1)) e

  -- The loop ends at once, or a tick below the bound has been counted.
  next-lem :
      (max_ticks : ℕ) (enforce : Bool) (m : Meets F) (w : Run F)
      → 0 < max_ticks
      → Halts cfg w.rt
      → w.rt.stopped ≡ false
      → NoOverride
      → let rt = (next max_ticks enforce m w).rt in
        Halts cfg rt
        × ((rt.stopped ≡ true)
            ⊎ ((rt.tick_count ≡ w.rt.tick_count + 1) × (rt.tick_count < max_ticks)))
  next-lem max_ticks enforce m w p h s n =
      let w1 = run_iteration cfg is_active enforce m w in
      let a = run_iteration-Advances enforce m w h s n in
      elim (Bool-cases (ltb 0 max_ticks && leb max_ticks w1.rt.tick_count)) [
        | inl e ↦ rw e (λ k. refl, inl refl)
        | inr e ↦ rw e (
          a.halting,
          (elim a.counted [
            | inl x ↦ inl x
            | inr c ↦ inr (c, below max_ticks w1.rt.tick_count p e)
          ]),
        )
      ]

  abbrev pub Ended : ℕ → ℕ → ℕ × Run F → Type 0
  Ended max_ticks ticks r = (r.1.rt.stopped ≡ true) × (r.0 ≤ suc (max_ticks - suc ticks))

  -- With a bound on the ticks, a kill switch that stops the loop where it is engaged, and no override of
  -- the kill switch or of the loss of the lease in force: whatever the iterations meet, failures of the
  -- agents, of the bus and of the lease included, the loop has ended after as many as the ticks that
  -- are left, and after one where none is left.
  pub run_loop-ends :
      (max_ticks : ℕ) (ms : List (Bool × Meets F)) (w : Run F)
      → 0 < max_ticks
      → Halts cfg w.rt
      → NoOverride
      → max_ticks ≤ w.rt.tick_count + length ms
      → 0 < length ms
      → Ended max_ticks w.rt.tick_count (run_loop cfg is_active max_ticks ms w)
  run_loop-ends max_ticks [] w p h n b l = absurd (omega arith)
  run_loop-ends max_ticks ((enforce, m) ∷ ms) w p h n b l = elim (Bool-cases w.rt.stopped) [
    | inl e ↦
        subst (Ended max_ticks w.rt.tick_count)
          (sym (run_loop-stopped max_ticks ((enforce, m) ∷ ms) w e)) (e, omega arith)
    | inr e ↦
        let w2 = next max_ticks enforce m w in
        let k = next-lem max_ticks enforce m w p h e n in
        subst (Ended max_ticks w.rt.tick_count) (sym (run_loop-next max_ticks enforce m ms w e))
          (elim k.1 [
            | inl s ↦
                subst (λ r. Ended max_ticks w.rt.tick_count (suc r.0, r.1))
                  (sym (run_loop-stopped max_ticks ms w2 s)) (s, omega arith)
            | inr c ↦
                let q =
                  run_loop-ends max_ticks ms w2 p k.0 n (omega (arith, c.0, c.1))
                    (omega (arith, c.0, c.1)) in
                (q.0, omega (arith, q.1, c.0, c.1))
          ])
  ]
