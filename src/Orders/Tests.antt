-- ===== src/Orders/Tests.antt =====
-- A partial fill that is reported twice.
use agenthedge.Prelude.{refl, false, none, some, [], ◌∷◌, ℤ, pos, get, put}
use agenthedge.Floats.{whole_floats}
use agenthedge.Portfolio.{Portfolio, apply_fill, fill_of, filled, realized, nonzero, max_f}
use agenthedge.Broker.{BrokerOrderStatus, buy, accepted, signed}
use agenthedge.Orders.{
  OrderRecord, FillEvent, no_source, Persisted, persist_new_fill, fill_portfolio, persisted_record,
  order_record, record_or_new,
}
use agenthedge.Orders.Once.{Quiet, persist_new_fill-once}

abbrev half : BrokerOrderStatus ℤ
half = record {
  broker_order_id = "b";
  client_order_id = "c";
  symbol = "SPY";
  quantity = pos 10;
  side = buy;
  status = accepted;
  filled_quantity = pos 5;
  average_fill_price = some (pos 3);
  reason = none;
  raw_status = none;
  portfolio_persisted = false;
}

abbrev placed : OrderRecord ℤ
placed = record {
  status = half;
  updated_at = 0;
  source = no_source;
  limit_price = some (pos 3);
  persisted_filled_quantity = pos 0;
  closed = false;
}

abbrev funds : Portfolio ℤ
funds = record { cash = pos 100; realized_pnl = pos 0; positions = []; last_updated = 0 }

abbrev seen : FillEvent ℤ
seen = record {
  source = no_source;
  symbol = "SPY";
  price = pos 3;
  quantity = pos 5;
  broker_order = half;
  portfolio = record { cash = pos 85; realized_pnl = pos 0; position_quantity = pos 5 };
}

abbrev after : Portfolio ℤ
after = record {
  cash = pos 85;
  realized_pnl = pos 0;
  positions = ("SPY", record { quantity = pos 5; average_cost = pos 3 }) ∷ [];
  last_updated = 1;
}

abbrev kept : Persisted whole_floats
kept = record {
  event = some seen;
  ledger = ("b", record placed { persisted_filled_quantity = pos 5; updated_at = 1 }) ∷ [];
  portfolio = after;
}

persist_new_fill-once_example : Quiet whole_floats after (
    persist_new_fill whole_floats 2
      (order_record whole_floats 2 half no_source none none kept.ledger)
      half
      (pos 3)
      kept.ledger
      after)
unfolding persist_new_fill fill_portfolio apply_fill fill_of filled realized nonzero
    persisted_record order_record record_or_new get put max_f signed
persist_new_fill-once_example =
    persist_new_fill-once whole_floats 1 2 placed half (pos 3) (pos 3) no_source [] funds after kept
      refl seen refl refl
