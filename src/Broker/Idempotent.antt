-- ===== src/Broker/Idempotent.antt =====
-- A client order id is submitted at most once.
use agenthedge.Prelude.{
  ℕ, ◌≡◌, inl, inr, Option, none, some, get, get-put_self, Option-cases, arith, Result, ok, err,
}
use agenthedge.Floats.{Floats}
use agenthedge.Portfolio.{Portfolio, StoreError}
use agenthedge.Broker.{
  BrokerOrder, BrokerOrderStatus, SimBroker, submit_order, place, positive_price, settle_fill,
  filled_status, rejected_status,
}

module _ (fl : Floats) where
  open fl use {F}

  settle_fill-recorded :
      (order : BrokerOrder F) (price : F) (b b' : SimBroker F) (s : BrokerOrderStatus F)
      (r : Result StoreError (Portfolio F))
      → settle_fill fl order price b r ≡ (ok s, b')
      → get order.client_order_id b'.orders ≡ some s
  settle_fill-recorded order price b b' s (err x) e = cc
  settle_fill-recorded order price b b' s (ok st) e =
      ground (arith, get-put_self order.client_order_id (filled_status fl order price) b.orders)

  -- What `place` returns is on record under the order's id.
  place-recorded :
      (now : ℕ) (order : BrokerOrder F) (price : Option F) (b b' : SimBroker F)
      (s : BrokerOrderStatus F)
      → place fl now order price b ≡ (ok s, b')
      → get order.client_order_id b'.orders ≡ some s
  unfolding place
  place-recorded now order none b b' s e =
      ground (arith, get-put_self order.client_order_id (rejected_status fl order) b.orders)
  place-recorded now order (some price) b b' s e = settle_fill-recorded order price b b' s _ e

  submit_order-recorded :
      (now : ℕ) (order : BrokerOrder F) (b b' : SimBroker F) (s : BrokerOrderStatus F)
      → submit_order fl now order b ≡ (ok s, b')
      → get order.client_order_id b'.orders ≡ some s
  unfolding submit_order
  submit_order-recorded now order b b' s e =
      elim (Option-cases (get order.client_order_id b.orders)) [
        | inl new ↦
            place-recorded now order (positive_price fl order.limit_price) b b' s
              (rw (new, submit_order) at e)
        | inr (old, known) ↦ ground arith
      ]

  -- Whatever order comes next under a client id that was submitted before, at whatever time, gets the
  -- status of the first one, and neither the orders nor the portfolio change.
  pub submit_order-idempotent :
      (now later : ℕ) (order again : BrokerOrder F) (b b' : SimBroker F) (s : BrokerOrderStatus F)
      → submit_order fl now order b ≡ (ok s, b')
      → again.client_order_id ≡ order.client_order_id
      → submit_order fl later again b' ≡ (ok s, b')
  unfolding submit_order
  submit_order-idempotent now later order again b b' s e same =
      ground (arith, submit_order-recorded now order b b' s e)
