-- ===== src/Execution/Spent.antt =====
-- How often an approval reaches the broker.
use agenthedge.Prelude.{
  ℕ, ◌≡◌, refl, ap, sym, ◌∙◌, subst, false, Option, none, some, List, [], ◌∷◌, String, if_both,
  Result, ok, err, ◌==◌,
}
use agenthedge.Values.{Payload}
use agenthedge.Floats.{Floats}
use agenthedge.Message.{contains}
use agenthedge.Broker.{BrokerOrder, BrokerOrderStatus}
use agenthedge.Portfolio.{Portfolio}
use agenthedge.Orders.{order_record, source_of}
use agenthedge.Execution.{
  BrokerAdapter, refused, order_pending, broker_accepted, Agent, emit, record_and_persist,
  handle_approval, handle_kill_switch, handle_message, settle_order, after_submit, after_safety,
  act_on, evaluate_safety, is_rejected,
}
use agenthedge.Execution.Checks.{Settings, Verdict, ignore, refuse, submit, verdict, order_of}
use agenthedge.Execution.Gate.{submit_of_checks, submit_of_verdict, submit_of_fields, submit_of_ids}
use agenthedge.Execution.Runs.{
  Event, message, tick, cancel_request, react, run, SameGuards, reconcile-SameGuards,
  cancel-SameGuards, record_and_persist-SameGuards, answered, Distinct,
}

module _ (fl : Floats) where
  open fl use {F, zero_f}

  module _ (cfg : Settings F) (adapter : BrokerAdapter F) where
    open adapter use {State, submit_order}

    -- The approvals on file are those that the broker has answered, each one once.
    record IsOnce (a : Agent F State) : Type 0 where
      answers : answered a.trace ≡ a.consumed
      distinct : Distinct a.consumed

    guards-IsOnce : {a a' : Agent F State} → SameGuards fl cfg adapter a a' → IsOnce a → IsOnce a'
    guards-IsOnce g o = record {
      answers = g.answers ∙ o.answers ∙ sym g.spent;
      distinct = subst Distinct (sym g.spent) o.distinct;
    }

    settle_order-SameGuards :
        (now : ℕ) (payload : Payload F) (order : BrokerOrder F) (price : F)
        (status : BrokerOrderStatus F) (a : Agent F State)
        → SameGuards fl cfg adapter
            (record a { consumed = order.client_order_id ∷ a.consumed })
            (settle_order fl cfg adapter now payload order price status a).1
    unfolding settle_order
    settle_order-SameGuards now payload order price status a =
        let a1 = record a { consumed = order.client_order_id ∷ a.consumed } in
        let r = order_record fl now status (source_of payload) (some price) none a1.ledger in
        let e = broker_accepted status in
        let g =
          record_and_persist-SameGuards fl cfg adapter now status r price (order_pending status)
            (emit e a1) refl refl in
        if_both {A = Result String (Unit {0}) × Agent F State}
          (λ x. SameGuards fl cfg adapter a1 x.1) (is_rejected fl cfg adapter status.status)
          {x = (ok tt, emit (refused "execution_broker_rejected" payload) a1)}
          {y = record_and_persist fl cfg adapter now status r price (order_pending status)
            (emit e a1)}
          (record { engaged = refl; spent = refl; calls = refl; answers = refl })
          (record { engaged = g.engaged; spent = g.spent; calls = g.calls; answers = g.answers })

    after_submit-IsOnce :
        (now : ℕ) (payload : Payload F) (order : BrokerOrder F) (a : Agent F State)
        (r : Result String (BrokerOrderStatus F) × State × Portfolio F)
        → contains a.consumed order.client_order_id ≡ false
        → IsOnce a
        → IsOnce (after_submit fl cfg adapter now payload order a r).1
    after_submit-IsOnce now payload order a (err x, s, st) new o = record {
      answers = o.answers;
      distinct = o.distinct;
    }
    after_submit-IsOnce now payload order a (ok status, s, st) new o =
        guards-IsOnce (settle_order-SameGuards now payload order _ status _) (record {
          answers = ap (λ t. order.client_order_id ∷ t) o.answers;
          distinct = (new, o.distinct);
        })

    act_on-IsOnce :
        (now : ℕ) (payload : Payload F) (v : Verdict F) (a : Agent F State)
        → verdict fl cfg now a.kill_switch_engaged a.consumed payload ≡ v
        → IsOnce a
        → IsOnce (act_on fl cfg adapter now payload v a).1
    unfolding order_of
    act_on-IsOnce now payload ignore a e o = o
    act_on-IsOnce now payload (refuse action) a e o = record {
      answers = o.answers;
      distinct = o.distinct;
    }
    act_on-IsOnce now payload (submit order) a e o = go (evaluate_safety fl cfg adapter order a)
      where
        new : contains a.consumed order.client_order_id ≡ false
        new =
            let (off, v1) =
              submit_of_verdict fl cfg adapter now a.kill_switch_engaged a.consumed payload order
                e in
            let (f, read, v2) = submit_of_fields fl cfg adapter now a.consumed payload _ order v1 in
            let (d, p, decided, approved, v3) =
              submit_of_ids fl cfg adapter now a.consumed payload f _ _ order v2 in
            let (fresh, approvals, in_time, built) =
              submit_of_checks fl cfg adapter now a.consumed payload f p order v3 in
            ap (λ o'. contains a.consumed o'.client_order_id) built ∙ fresh

        go :
            (s : Result String (Option String))
            → IsOnce (after_safety fl cfg adapter now payload order a s).1
        go (err x) = record { answers = o.answers; distinct = o.distinct }
        go (ok (some reason)) = record { answers = o.answers; distinct = o.distinct }
        go (ok none) =
            after_submit-IsOnce now payload order a (submit_order now order a.broker a.portfolio)
              new o

    react-IsOnce : (e : Event F) (a : Agent F State) → IsOnce a → IsOnce (react fl cfg adapter e a)
    unfolding react handle_message handle_approval handle_kill_switch
    react-IsOnce (message now topic payload) a o =
        if_both {A = Result String (Unit {0}) × Agent F State} (λ r. IsOnce r.1)
          (topic == "director.approval") {x = handle_approval fl cfg adapter now payload a}
          {y = (ok tt, handle_kill_switch fl cfg adapter topic payload a)}
          (act_on-IsOnce now payload _ a refl o)
          (if_both {A = Agent F State} IsOnce a.kill_switch_engaged o
            (record { answers = o.answers; distinct = o.distinct }))
    react-IsOnce (tick now) a o = guards-IsOnce (reconcile-SameGuards fl cfg adapter now a) o
    react-IsOnce (cancel_request now k) a o =
        guards-IsOnce (cancel-SameGuards fl cfg adapter now k a) o

    run-IsOnce :
        (es : List (Event F)) (a : Agent F State) → IsOnce a → IsOnce (run fl cfg adapter es a)
    unfolding run
    run-IsOnce [] a o = o
    run-IsOnce (e ∷ es) a o = run-IsOnce es (react fl cfg adapter e a) (react-IsOnce e a o)

    -- An agent that starts with no consumed approval and an empty trace: after any sequence of
    -- messages, ticks and cancels, the approvals that the broker has answered are exactly the consumed
    -- ones, and no approval is among them twice.
    pub approvals_spent_once :
        (es : List (Event F)) (a : Agent F State)
        → a.consumed ≡ []
        → a.trace ≡ []
        → (answered (run fl cfg adapter es a).trace ≡ (run fl cfg adapter es a).consumed)
          × Distinct (answered (run fl cfg adapter es a).trace)
    approvals_spent_once es a c t =
        let start : IsOnce a = record {
          answers = ap answered t ∙ sym c;
          distinct = subst Distinct (sym c) tt;
        } in
        let o = run-IsOnce es a start in (o.answers, subst Distinct (sym o.answers) o.distinct)
