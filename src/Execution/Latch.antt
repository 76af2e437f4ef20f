-- ===== src/Execution/Latch.antt =====
-- The kill switch over a run of the agent.
use agenthedge.Prelude.{
  ℕ, ◌≡◌, refl, ◌∙◌, Bool, true, false, some, List, [], ◌∷◌, String, if◌then◌else◌, if_both, Result,
  ok, ◌==◌,
}
use agenthedge.Values.{Payload, get_value, nonempty_text}
use agenthedge.Floats.{Floats}
use agenthedge.Execution.{
  BrokerAdapter, kill_switch_engaged, text_or_unspecified, Agent, emit, handle_approval,
  handle_kill_switch, handle_message, act_on,
}
use agenthedge.Execution.Checks.{Settings, verdict}
use agenthedge.Execution.Gate.{submissions}
use agenthedge.Execution.Runs.{
  Event, message, tick, cancel_request, react, run, reconcile-SameGuards, cancel-SameGuards,
}

module _ (fl : Floats) where
  open fl use {F, zero_f}

  module _ (cfg : Settings F) (adapter : BrokerAdapter F) where
    open adapter use {State}

    -- The switch, once engaged, stays, and no order reaches the broker.
    abbrev pub Latched : Agent F State → Agent F State → Type 0
    Latched a a' = (a'.kill_switch_engaged ≡ true) × (submissions a'.trace ≡ submissions a.trace)

    approval-Latched :
        (now : ℕ) (payload : Payload F) (a : Agent F State)
        → a.kill_switch_engaged ≡ true
        → Latched a (handle_approval fl cfg adapter now payload a).1
    unfolding handle_approval verdict
    approval-Latched now payload a h = go a.kill_switch_engaged h
      where
        go :
            (engaged : Bool)
            → engaged ≡ true
            → Latched a
                (act_on fl cfg adapter now payload
                  (verdict fl cfg now engaged a.consumed payload)
                  a).1
        go true e = (h, refl)
        go false e = cc

    kill_switch-Latched :
        (topic : String) (payload : Payload F) (a : Agent F State)
        → Latched a (handle_kill_switch fl cfg adapter topic payload a)
    unfolding handle_kill_switch
    kill_switch-Latched topic payload a = go a.kill_switch_engaged refl
      where
        go :
            (engaged : Bool)
            → a.kill_switch_engaged ≡ engaged
            → Latched a (
                if engaged
                then a
                else emit
                    (kill_switch_engaged topic (
                      text_or_unspecified fl cfg adapter
                        (nonempty_text (get_value "reason" payload))))
                    (record a {
                      kill_switch_engaged = true;
                      kill_switch_reason = some (
                          text_or_unspecified fl cfg adapter
                            (nonempty_text (get_value "reason" payload)));
                      kill_switch_trigger = some topic;
                    }))
        go true e = (e, refl)
        go false e = (refl, refl)

    react-Latched :
        (e : Event F) (a : Agent F State)
        → a.kill_switch_engaged ≡ true
        → Latched a (react fl cfg adapter e a)
    unfolding react handle_message
    react-Latched (message now topic payload) a h =
        if_both {A = Result String (Unit {0}) × Agent F State} (λ r. Latched a r.1)
          (topic == "director.approval") {x = handle_approval fl cfg adapter now payload a}
          {y = (ok tt, handle_kill_switch fl cfg adapter topic payload a)}
          (approval-Latched now payload a h) (kill_switch-Latched topic payload a)
    react-Latched (tick now) a h =
        let g = reconcile-SameGuards fl cfg adapter now a in (g.engaged ∙ h, g.calls)
    react-Latched (cancel_request now k) a h =
        let g = cancel-SameGuards fl cfg adapter now k a in (g.engaged ∙ h, g.calls)

    run-Latched :
        (es : List (Event F)) (a : Agent F State)
        → a.kill_switch_engaged ≡ true
        → Latched a (run fl cfg adapter es a)
    unfolding run
    run-Latched [] a h = (h, refl)
    run-Latched (e ∷ es) a h =
        let (on, same) = react-Latched e a h in
        let (on', same') = run-Latched es (react fl cfg adapter e a) on in (on', same' ∙ same)

    -- A message on any topic but `director.approval` engages the kill switch, and whatever comes after
    -- it, in any order, the switch stays engaged and not one order is passed to the broker.
    pub kill_switch_stops :
        (now : ℕ) (topic : String) (payload : Payload F) (es : List (Event F)) (a : Agent F State)
        → (topic == "director.approval") ≡ false
        → Latched a (run fl cfg adapter es (react fl cfg adapter (message now topic payload) a))
    unfolding react handle_message
    kill_switch_stops now topic payload es a off =
        let (on, same) = kill_switch-Latched topic payload a in
        go (topic == "director.approval") off on same
      where
        go :
            (c : Bool)
            → c ≡ false
            → (handle_kill_switch fl cfg adapter topic payload a).kill_switch_engaged ≡ true
            → submissions (handle_kill_switch fl cfg adapter topic payload a).trace
              ≡ submissions a.trace
            → Latched a (
                run fl cfg adapter es
                  (if c
                    then handle_approval fl cfg adapter now payload a
                    else (ok tt, handle_kill_switch fl cfg adapter topic payload a)).1)
        go true e on same = cc
        go false e on same =
            let (on', same') =
              run-Latched es (handle_kill_switch fl cfg adapter topic payload a) on in
            (on', same' ∙ same)
