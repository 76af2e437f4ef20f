-- ===== src/Execution.antt =====
-- `ExecutionAgent` (src/agents/impl/execution.py) over any broker adapter. What it calls on the bus,
-- the audit log and the broker is a trace, newest first. `str.upper`, `str.lower`,
-- `datetime.fromisoformat` and the clock are parameters; times are microseconds.
pub mod Checks
pub mod Gate
pub mod Runs
pub mod Latch
pub mod Simulated
pub mod Spent
mod Tests
use agenthedge.Prelude.{
  ℕ, ◌+◌, Bool, true, false, not, ◌&&◌, ◌||◌, Option, none, some, List, [], ◌∷◌, String, Dict, get,
  put, ltb, if◌then◌else◌, ◌==◌, Result, ok, err,
}
use agenthedge.Values.{
  Value, null, text, number, boolean, Payload, get_value, as_text, as_dict, nonempty_text,
}
use agenthedge.Floats.{Floats}
use agenthedge.Message.{contains}
use agenthedge.Portfolio.{Portfolio}
use agenthedge.Broker.{
  BrokerOrder, BrokerOrderStatus, BrokerAccount, BrokerPosition, OrderStatus, rejected, buy, sell,
}
use agenthedge.Safety.{SafetyConfig, evaluate_order_safety}
use agenthedge.Orders.{
  OrderRecord, FillEvent, Persisted, source_of, no_source, order_record, persist_new_fill,
  or_else_f,
}
use agenthedge.Execution.Checks.{Verdict, ignore, refuse, submit, Settings, verdict, price_of}

-- `BrokerAdapter`: each call may raise, here with a text. `submit_order` may also change the portfolio
-- that the adapter shares with the agent.
pub record BrokerAdapter (F : Type 0) : Type 1 where
  pub State : Type 0
  pub get_account : State → Result String BrokerAccount
  pub get_positions : State → Portfolio F → Result String (List (BrokerPosition F))
  pub is_market_open : State → Result String Bool
  pub submit_order :
      ℕ
      → BrokerOrder F
      → State
      → Portfolio F
      → Result String (BrokerOrderStatus F) × State × Portfolio F
  pub cancel_order : String → State → Result String (BrokerOrderStatus F) × State
  pub get_order_status : String → State → Result String (BrokerOrderStatus F)

pub data Effect (F : Type 0) : Type 0 where
  -- `_reject`, with its action and the approval's payload
  refused : String → Payload F → Effect F
  -- the call of `submit_order`, and whether it returned
  submitted : BrokerOrder F → Bool → Effect F
  broker_accepted : BrokerOrderStatus F → Effect F
  order_pending : BrokerOrderStatus F → Effect F
  order_status : BrokerOrderStatus F → Effect F
  order_canceled : BrokerOrderStatus F → Effect F
  fill_published : FillEvent F → Effect F
  -- the audit record and the critical alert
  kill_switch_engaged : String → String → Effect F

pub record Agent (F S : Type 0) : Type 0 where
  pub kill_switch_engaged : Bool
  pub kill_switch_reason : Option String
  pub kill_switch_trigger : Option String
  pub consumed : List String
  pub ledger : Dict (OrderRecord F)
  pub portfolio : Portfolio F
  pub broker : S
  pub trace : List (Effect F)

module _ {F S : Type 0} where
  abbrev pub emit : Effect F → Agent F S → Agent F S
  emit e a = record a { trace = e ∷ a.trace }

abbrev pub ids : {V : Type 0} → Dict V → List String
ids [] = []
ids ((k, _) ∷ d) = k ∷ ids d

module _ (fl : Floats) where
  open fl use {F, zero_f}

  module _ (cfg : Settings F) where
    module _ (adapter : BrokerAdapter F) where
      open adapter use {
        State, get_account, get_positions, is_market_open, submit_order, cancel_order,
        get_order_status,
      }

      -- `_evaluate_safety`: the account, then the positions, then the clock
      abbrev pub safety_result :
          BrokerOrder F
          → Result String BrokerAccount
          → Result String (List (BrokerPosition F))
          → Result String Bool
          → Result String (Option String)
      safety_result order (ok account) (ok positions) (ok market_open) =
          ok (evaluate_order_safety fl cfg.upper order cfg.safety account positions market_open)
      safety_result order (err e) _ _ = err e
      safety_result order (ok _) (err e) _ = err e
      safety_result order (ok _) (ok _) (err e) = err e

      unfoldable pub evaluate_safety : BrokerOrder F → Agent F State → Result String (Option String)
      evaluate_safety order a =
          safety_result order (get_account a.broker) (get_positions a.broker a.portfolio)
            (is_market_open a.broker)

      abbrev pub publish_or : Effect F → Option (FillEvent F) → Effect F
      publish_or e none = e
      publish_or e (some event) = fill_published event

      abbrev pub after_persist :
          {E : Type 0}
          → Effect F
          → Result E (Persisted fl)
          → Agent F State
          → Result String (Unit {0}) × Agent F State
      after_persist e (err x) a = (err "ValueError", a)
      after_persist e (ok p) a = (
        ok tt,
        emit (publish_or e p.event) (record a { ledger = p.ledger; portfolio = p.portfolio }),
      )

      -- the status written into the ledger and its new fill into the portfolio; `e` is the audit event
      -- where there is no fill
      unfoldable pub record_and_persist :
          ℕ
          → BrokerOrderStatus F
          → OrderRecord F
          → F
          → Effect F
          → Agent F State
          → Result String (Unit {0}) × Agent F State
      record_and_persist now status r fallback_price e a =
          let a' = record a { ledger = put status.broker_order_id r a.ledger } in
          after_persist e (persist_new_fill fl now r status fallback_price a'.ledger a'.portfolio)
            a'

      abbrev pub is_rejected : OrderStatus → Bool
      is_rejected rejected = true
      is_rejected _ = false

      -- after `submit_order` has returned
      unfoldable pub settle_order :
          ℕ
          → Payload F
          → BrokerOrder F
          → F
          → BrokerOrderStatus F
          → Agent F State
          → Result String (Unit {0}) × Agent F State
      unfolding record_and_persist
      settle_order now payload order price status a =
          let a1 = record a { consumed = order.client_order_id ∷ a.consumed } in
          let r = order_record fl now status (source_of payload) (some price) none a1.ledger in
          if is_rejected status.status
          then (ok tt, emit (refused "execution_broker_rejected" payload) a1)
          else record_and_persist now status r price (order_pending status)
              (emit (broker_accepted status) a1)

      abbrev pub after_submit :
          ℕ
          → Payload F
          → BrokerOrder F
          → Agent F State
          → Result String (BrokerOrderStatus F) × State × Portfolio F
          → Result String (Unit {0}) × Agent F State
      after_submit now payload order a (err x, s, st) =
          (err x, emit (submitted order false) (record a { broker = s; portfolio = st }))
      after_submit now payload order a (ok status, s, st) =
          settle_order now payload order (price_of fl order.limit_price) status
            (emit (submitted order true) (record a { broker = s; portfolio = st }))

      abbrev pub after_safety :
          ℕ
          → Payload F
          → BrokerOrder F
          → Agent F State
          → Result String (Option String)
          → Result String (Unit {0}) × Agent F State
      after_safety now payload order a (err x) = (err x, a)
      after_safety now payload order a (ok (some reason)) =
          (ok tt, emit (refused "execution_safety_blocked" payload) a)
      after_safety now payload order a (ok none) =
          after_submit now payload order a (submit_order now order a.broker a.portfolio)

      abbrev pub act_on :
          ℕ → Payload F → Verdict F → Agent F State → Result String (Unit {0}) × Agent F State
      act_on now payload ignore a = (ok tt, a)
      act_on now payload (refuse action) a = (ok tt, emit (refused action payload) a)
      act_on now payload (submit order) a =
          after_safety now payload order a (evaluate_safety order a)

      unfoldable pub handle_approval :
          ℕ → Payload F → Agent F State → Result String (Unit {0}) × Agent F State
      handle_approval now payload a =
          act_on now payload (verdict fl cfg now a.kill_switch_engaged a.consumed payload) a

      abbrev pub text_or_unspecified : Option String → String
      text_or_unspecified none = "unspecified"
      text_or_unspecified (some s) = s

      unfoldable pub handle_kill_switch : String → Payload F → Agent F State → Agent F State
      handle_kill_switch topic payload a =
          let reason = text_or_unspecified (nonempty_text (get_value "reason" payload)) in
          if a.kill_switch_engaged
          then a
          else emit (kill_switch_engaged topic reason) (record a {
            kill_switch_engaged = true;
            kill_switch_reason = some reason;
            kill_switch_trigger = some topic;
          })

      -- `_handle_control_message`
      unfoldable pub handle_message :
          ℕ → String → Payload F → Agent F State → Result String (Unit {0}) × Agent F State
      handle_message now topic payload a =
          if topic == "director.approval"
          then handle_approval now payload a
          else (ok tt, handle_kill_switch topic payload a)

      abbrev pub after_cancel :
          ℕ
          → Agent F State
          → Result String (BrokerOrderStatus F) × State
          → Result String (Unit {0}) × Agent F State
      after_cancel now a (err x, s) = (err x, record a { broker = s })
      after_cancel now a (ok status, s) =
          let r = order_record fl now status no_source none (some true) a.ledger in
          (
            ok tt,
            emit (order_canceled status)
                (record a { broker = s; ledger = put status.broker_order_id r a.ledger }),
          )

      -- `cancel_order`
      unfoldable pub cancel : ℕ → String → Agent F State → Result String (Unit {0}) × Agent F State
      cancel now broker_order_id a = after_cancel now a (cancel_order broker_order_id a.broker)

      abbrev pub after_status :
          ℕ
          → OrderRecord F
          → Agent F State
          → Result String (BrokerOrderStatus F)
          → Result String (Unit {0}) × Agent F State
      after_status now old a (err x) = (err x, a)
      after_status now old a (ok status) =
          record_and_persist now status (order_record fl now status old.source none none a.ledger)
            (or_else_f fl old.limit_price zero_f) (order_status status) a

      -- one round of the loop of `reconcile_pending_orders`, on the record as it then is
      abbrev pub reconcile_one :
          ℕ
          → String
          → Option (OrderRecord F)
          → Agent F State
          → Result String (Unit {0}) × Agent F State
      reconcile_one now broker_order_id none a = (ok tt, a)
      reconcile_one now broker_order_id (some old) a =
          if old.closed
          then (ok tt, a)
          else after_status now old a (get_order_status broker_order_id a.broker)

      -- the loop over the ids that it found; it ends at a raise
      unfoldable pub reconcile_from :
          ℕ → List String → Agent F State → Result String (Unit {0}) × Agent F State
      unfolding record_and_persist
      reconcile_from now [] a = (ok tt, a)
      reconcile_from now (broker_order_id ∷ rest) a =
          let (r, a') = reconcile_one now broker_order_id (get broker_order_id a.ledger) a in
          let go_on = reconcile_from now rest a' in elim r [ ok _ ↦ go_on | err x ↦ (err x, a') ]

      unfoldable pub reconcile_pending_orders :
          ℕ → Agent F State → Result String (Unit {0}) × Agent F State
      unfolding reconcile_from
      reconcile_pending_orders now a = reconcile_from now (ids a.ledger) a

      unfoldable pub teardown : Agent F State → Agent F State
      teardown a = record a {
        kill_switch_engaged = false;
        kill_switch_reason = none;
        kill_switch_trigger = none;
        consumed = [];
      }
