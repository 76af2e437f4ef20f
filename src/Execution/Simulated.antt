-- ===== src/Execution/Simulated.antt =====
-- `SimulatedBrokerAdapter` (src/portfolio/broker.py) as the adapter that the agent calls. Its state is
-- the dict of its orders; the portfolio is the one that it shares with the agent.
use agenthedge.Prelude.{[], Result, ok, err, String, Dict, true, false}
use agenthedge.Floats.{Floats}
use agenthedge.Portfolio.{Portfolio, StoreError}
use agenthedge.Broker.{
  BrokerAccount, BrokerOrderStatus, SimBroker, submit_order, cancel_order, get_order_status,
  get_positions,
}
use agenthedge.Execution.{BrokerAdapter}

abbrev pub simulated_account : BrokerAccount
simulated_account = record {
  account_id = "simulated";
  status = "ACTIVE";
  is_paper = true;
  trading_blocked = false;
}

module _ (fl : Floats) where
  open fl use {F, zero_f}

  abbrev pub broker_with : Dict (BrokerOrderStatus F) → Portfolio F → SimBroker F
  broker_with orders st = record { orders = orders; portfolio = st }

  abbrev pub raised : Result StoreError (BrokerOrderStatus F) → Result String (BrokerOrderStatus F)
  raised (ok status) = ok status
  raised (err e) = err "ValueError"

  abbrev no_portfolio : Portfolio F
  no_portfolio = record { cash = zero_f; realized_pnl = zero_f; positions = []; last_updated = 0 }

  abbrev pub simulated : BrokerAdapter F
  simulated = record {
    State = Dict (BrokerOrderStatus F);
    get_account = λ orders. ok simulated_account;
    get_positions = λ orders st. ok (get_positions fl st.positions);
    is_market_open = λ orders. ok true;
    submit_order = λ now order orders st.
        let (r, b) = submit_order fl now order (broker_with orders st) in
        (raised r, b.orders, b.portfolio);
    cancel_order = λ k orders.
        let (status, b) = cancel_order fl k (broker_with orders no_portfolio) in
        (ok status, b.orders);
    get_order_status = λ k orders. ok (get_order_status fl k (broker_with orders no_portfolio));
  }
