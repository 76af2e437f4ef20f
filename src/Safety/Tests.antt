-- ===== src/Safety/Tests.antt =====
-- An order at its limits.
use agenthedge.Prelude.{◌≡◌, ◌↔◌, true, false, none, some, [], ℤ, pos}
use agenthedge.Floats.{whole_floats}
use agenthedge.Broker.{BrokerOrder, BrokerAccount, sell}
use agenthedge.Safety.{SafetyConfig, evaluate_order_safety, IsSafe, allowed_iff_IsSafe}

abbrev config : SafetyConfig ℤ
config = record {
  max_order_notional = pos 100;
  max_order_shares = pos 10;
  max_symbol_position_shares = pos 10;
  market_hours_guard_enabled = true;
  require_paper_account = true;
}

abbrev account : BrokerAccount
account = record { account_id = "a"; status = "ACTIVE"; is_paper = true; trading_blocked = false }

abbrev order : BrokerOrder ℤ
order = record {
  client_order_id = "c";
  symbol = "SPY";
  quantity = pos 10;
  side = sell;
  limit_price = some (pos 10);
}

allowed_iff_IsSafe_example :
    (evaluate_order_safety whole_floats (λ s. s) order config account [] true ≡ none)
    ↔ IsSafe whole_floats (λ s. s) order config account [] true
allowed_iff_IsSafe_example = allowed_iff_IsSafe whole_floats (λ s. s) order config account [] true
