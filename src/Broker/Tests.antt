-- ===== src/Broker/Tests.antt =====
-- The simulated broker at whole numbers.
use agenthedge.Prelude.{◌≡◌, refl, none, some, [], ◌∷◌, String, get, ℤ, pos, ok, arith, true, eqb_ℤ}
use agenthedge.Floats.{whole_floats}
use agenthedge.Broker.{
  BrokerOrder, SimBroker, buy, sell, submit_order, rejected_status, reconcile_fills,
}
use agenthedge.Broker.Idempotent.{submit_order-idempotent}
use agenthedge.Broker.Reconcile.{ReconcileLaws, submit_all, reconcile_after_submissions}

abbrev fresh : SimBroker ℤ
fresh = record {
  orders = [];
  portfolio = record { cash = pos 1000; realized_pnl = pos 0; positions = []; last_updated = 0 };
}

abbrev order : String → ℤ → BrokerOrder ℤ
order id quantity = record {
  client_order_id = id;
  symbol = "SPY";
  quantity = quantity;
  side = buy;
  limit_price = some (pos 20);
}

abbrev market_order : BrokerOrder ℤ
market_order = record {
  client_order_id = "m1";
  symbol = "SPY";
  quantity = pos 5;
  side = sell;
  limit_price = none;
}

abbrev after_market : SimBroker ℤ
after_market = (submit_order whole_floats 1 market_order fresh).1

submit_order-idempotent_example :
    submit_order whole_floats 2 (order "m1" (pos 7)) after_market
    ≡ (ok (rejected_status whole_floats market_order), after_market)
unfolding submit_order get
submit_order-idempotent_example =
    submit_order-idempotent whole_floats 1 2 market_order (order "m1" (pos 7)) fresh after_market
      (rejected_status whole_floats market_order) refl refl

zero_unique_lem : (x : ℤ) → eqb_ℤ x (pos 0) ≡ true → x ≡ pos 0
zero_unique_lem x h = ground arith

laws : ReconcileLaws whole_floats (pos 0)
laws = record { zero_unique = zero_unique_lem; exact = λ x. ground arith }

reconcile_after_submissions_example :
    reconcile_fills whole_floats
      (λ ss. ss)
      (pos 0)
      (submit_all whole_floats 1 (order "a" (pos 3) ∷ market_order ∷ order "a" (pos 4) ∷ []) fresh)
    ≡ []
reconcile_after_submissions_example =
    reconcile_after_submissions whole_floats (λ ss. ss) (pos 0) 1
      (order "a" (pos 3) ∷ market_order ∷ order "a" (pos 4) ∷ []) fresh laws refl refl
