-- ===== src/Execution/Tests.antt =====
-- The agent with the simulated broker, at whole numbers.
use agenthedge.Prelude.{◌≡◌, refl, false, true, none, some, List, [], ◌∷◌, String, ℤ, pos}
use agenthedge.Floats.{whole_floats}
use agenthedge.Values.{Payload, Fields, text, number, object, field, end}
use agenthedge.Broker.{BrokerOrderStatus}
use agenthedge.Execution.{Agent, handle_approval}
use agenthedge.Execution.Checks.{Settings}
use agenthedge.Execution.Gate.{Gated, handle_approval_gate}
use agenthedge.Execution.Runs.{Event, message, tick, cancel_request, run, react, answered, Distinct}
use agenthedge.Execution.Latch.{Latched, kill_switch_stops}
use agenthedge.Execution.Spent.{approvals_spent_once}
use agenthedge.Execution.Simulated.{simulated}

abbrev settings : Settings ℤ
settings = record {
  upper = λ s. s;
  lower = λ s. s;
  parse_time = λ s. some 100;
  clock_skew = 5;
  safety = record {
    max_order_notional = pos 1000;
    max_order_shares = pos 10;
    max_symbol_position_shares = pos 100;
    market_hours_guard_enabled = true;
    require_paper_account = true;
  };
}

abbrev started : Agent ℤ (List (String × BrokerOrderStatus ℤ))
started = record {
  kill_switch_engaged = false;
  kill_switch_reason = none;
  kill_switch_trigger = none;
  consumed = [];
  ledger = [];
  portfolio = record { cash = pos 1000; realized_pnl = pos 0; positions = []; last_updated = 0 };
  broker = [];
  trace = [];
}

abbrev approved_entry : Fields ℤ
approved_entry = field "status" (text "approved") end

abbrev approval : Payload ℤ
approval =
    ("symbol", text "SPY")
    ∷ ("price", number (pos 20))
    ∷ ("quantity", number (pos 3))
    ∷ ("proposal_id", text "p1")
    ∷ ("decision_id", text "d1")
    ∷ ("director_approval_id", text "a1")
    ∷ ("expires_at", text "later")
    ∷ (
      "approvals",
      object (
          field "risk" (object approved_entry) (
            field "compliance" (object approved_entry)
              (field "director" (object approved_entry) end))),
    )
    ∷ []

abbrev tight_sequence : List (Event ℤ)
tight_sequence =
    message 1 "director.approval" approval
    ∷ tick 2
    ∷ message 3 "director.approval" approval
    ∷ cancel_request 4 "sim-a1"
    ∷ []

handle_approval_gate_example :
    Gated whole_floats settings
      (simulated whole_floats)
      1
      approval
      started
      (handle_approval whole_floats settings (simulated whole_floats) 1 approval started).1
handle_approval_gate_example =
    handle_approval_gate whole_floats settings (simulated whole_floats) 1 approval started

kill_switch_stops_example : Latched whole_floats settings (simulated whole_floats) started (
    run whole_floats settings (simulated whole_floats) tight_sequence (
      react whole_floats settings
        (simulated whole_floats)
        (message 0 "risk.kill_switch" [])
        started))
kill_switch_stops_example =
    kill_switch_stops whole_floats settings (simulated whole_floats) 0 "risk.kill_switch" []
      tight_sequence started refl

approvals_spent_once_example :
    (answered (run whole_floats settings (simulated whole_floats) tight_sequence started).trace
      ≡ (run whole_floats settings (simulated whole_floats) tight_sequence started).consumed)
    × Distinct
        (answered (run whole_floats settings (simulated whole_floats) tight_sequence started).trace)
approvals_spent_once_example =
    approvals_spent_once whole_floats settings (simulated whole_floats) tight_sequence started refl
      refl
