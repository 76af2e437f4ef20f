-- ===== src/Broker.antt =====
-- The broker's data and `SimulatedBrokerAdapter` (src/portfolio/broker.py). Python's `sorted` is a
-- parameter, as is the tolerance 1e-9.
pub mod Idempotent
pub mod Reconcile
mod Tests
use agenthedge.Prelude.{
  ℕ, Bool, true, false, not, ◌&&◌, ◌||◌, Option, none, some, List, [], ◌∷◌, ◌++◌, String, Dict, get,
  put, values, if◌then◌else◌, ◌==◌, Result, ok, err, any, keep_if,
}
use Prim.Native.String.{◌++◌ as append}
use text.Mathlib.Text.{starts_with}
use agenthedge.Values.{Payload}
use agenthedge.Floats.{Floats}
use agenthedge.Portfolio.{Portfolio, Position, StoreError, apply_fill, quantity_of}

pub data OrderSide : Type 0 where
  buy sell : OrderSide

pub data OrderStatus : Type 0 where
  accepted filled partially_filled rejected canceled pending_cancel : OrderStatus

pub record BrokerOrder (F : Type 0) : Type 0 where
  pub client_order_id : String
  pub symbol : String
  pub quantity : F
  pub side : OrderSide
  pub limit_price : Option F

pub record BrokerAccount : Type 0 where
  pub account_id : String
  pub status : String
  pub is_paper : Bool
  pub trading_blocked : Bool

pub record BrokerPosition (F : Type 0) : Type 0 where
  pub symbol : String
  pub quantity : F

pub record BrokerOrderStatus (F : Type 0) : Type 0 where
  pub broker_order_id : String
  pub client_order_id : String
  pub symbol : String
  pub quantity : F
  pub side : OrderSide
  pub status : OrderStatus
  pub filled_quantity : F
  pub average_fill_price : Option F
  pub reason : Option String
  pub raw_status : Option String
  pub portfolio_persisted : Bool

pub record Mismatch (F : Type 0) : Type 0 where
  pub symbol : String
  pub broker_quantity : F
  pub portfolio_quantity : F

-- the adapter's `_orders`, beside the portfolio that it shares with the agents
pub record SimBroker (F : Type 0) : Type 0 where
  pub orders : Dict (BrokerOrderStatus F)
  pub portfolio : Portfolio F

abbrev pub status_name : OrderStatus → String
status_name accepted = "accepted"
status_name filled = "filled"
status_name partially_filled = "partially_filled"
status_name rejected = "rejected"
status_name canceled = "canceled"
status_name pending_cancel = "pending_cancel"

-- `status in {"filled", "partially_filled"}`
abbrev pub has_fills : OrderStatus → Bool
has_fills filled = true
has_fills partially_filled = true
has_fills _ = false

-- `status in {"accepted", "partially_filled", "pending_cancel"}`
abbrev pub is_open : OrderStatus → Bool
is_open accepted = true
is_open partially_filled = true
is_open pending_cancel = true
is_open _ = false

-- `_normalize_side`, of a lower-case text
unfoldable pub normalize_side : String → OrderSide
normalize_side value = if value == "sell" then sell else buy

-- `_normalize_status`
unfoldable pub normalize_status : String → OrderStatus
normalize_status value =
    if value == "filled"
    then filled
    else if value == "partially_filled"
    then partially_filled
    else if value == "canceled" || value == "expired"
    then canceled
    else if value == "rejected" || value == "stopped" || value == "suspended"
    then rejected
    else if value == "pending_cancel"
    then pending_cancel
    else accepted

module _ (fl : Floats) where
  open fl use {F, zero_f, add_f, sub_f, neg_f, abs_f, lt_f, le_f, eq_f}

  -- `quantity if side == "buy" else -quantity`
  unfoldable pub signed : OrderSide → F → F
  signed buy q = q
  signed sell q = neg_f q

  abbrev pub sim_id : String → String
  sim_id client_order_id = append "sim-" client_order_id

  unfoldable pub rejected_status : BrokerOrder F → BrokerOrderStatus F
  rejected_status order = record {
    broker_order_id = sim_id order.client_order_id;
    client_order_id = order.client_order_id;
    symbol = order.symbol;
    quantity = order.quantity;
    side = order.side;
    status = rejected;
    filled_quantity = zero_f;
    average_fill_price = none;
    reason = some "simulated broker requires a positive limit_price";
    raw_status = none;
    portfolio_persisted = false;
  }

  unfoldable pub filled_status : BrokerOrder F → F → BrokerOrderStatus F
  filled_status order price = record {
    broker_order_id = sim_id order.client_order_id;
    client_order_id = order.client_order_id;
    symbol = order.symbol;
    quantity = order.quantity;
    side = order.side;
    status = filled;
    filled_quantity = order.quantity;
    average_fill_price = some price;
    reason = none;
    raw_status = none;
    portfolio_persisted = true;
  }

  -- the limit price if it is positive
  unfoldable pub positive_price : Option F → Option F
  positive_price none = none
  positive_price (some p) = if eq_f p zero_f || le_f p zero_f then none else some p

  abbrev pub settle_fill :
      BrokerOrder F
      → F
      → SimBroker F
      → Result StoreError (Portfolio F)
      → Result StoreError (BrokerOrderStatus F) × SimBroker F
  settle_fill order price b (err e) = (err e, b)
  settle_fill order price b (ok st) =
      let status = filled_status order price in
      (ok status, record { orders = put order.client_order_id status b.orders; portfolio = st })

  abbrev pub filled_portfolio :
      {A : Type 0} → Result StoreError A × Portfolio F → Result StoreError (Portfolio F)
  filled_portfolio (ok _, st) = ok st
  filled_portfolio (err e, st) = err e

  -- a new order
  unfoldable pub place :
      ℕ
      → BrokerOrder F
      → Option F
      → SimBroker F
      → Result StoreError (BrokerOrderStatus F) × SimBroker F
  unfolding rejected_status filled_status signed
  place now order none b =
      let status = rejected_status order in
      (ok status, record b { orders = put order.client_order_id status b.orders })
  place now order (some price) b = settle_fill order price b (
      filled_portfolio
        (apply_fill fl now order.symbol (signed order.side order.quantity) price b.portfolio))

  unfoldable pub submit_order :
      ℕ → BrokerOrder F → SimBroker F → Result StoreError (BrokerOrderStatus F) × SimBroker F
  unfolding place positive_price
  submit_order now order b = elim (get order.client_order_id b.orders) [
    | some existing ↦ (ok existing, b)
    | none ↦ place now order (positive_price order.limit_price) b
  ]

  unfoldable pub unknown_order : String → BrokerOrderStatus F
  unknown_order broker_order_id = record {
    broker_order_id = broker_order_id;
    client_order_id = "unknown";
    symbol = "UNKNOWN";
    quantity = zero_f;
    side = buy;
    status = rejected;
    filled_quantity = zero_f;
    average_fill_price = none;
    reason = some "order not found";
    raw_status = none;
    portfolio_persisted = false;
  }

  -- the first order of that broker id, with its key
  unfoldable pub find_order :
      String → Dict (BrokerOrderStatus F) → Option (String × BrokerOrderStatus F)
  find_order broker_order_id [] = none
  find_order broker_order_id ((k, s) ∷ orders) =
      if s.broker_order_id == broker_order_id
      then some (k, s)
      else find_order broker_order_id orders

  unfoldable pub canceled_status : String → String → BrokerOrderStatus F → BrokerOrderStatus F
  canceled_status broker_order_id client_order_id s = record s {
    broker_order_id = broker_order_id;
    client_order_id = client_order_id;
    status = canceled;
    reason = none;
    raw_status = some (status_name s.status);
    portfolio_persisted = false;
  }

  unfoldable pub cancel_order : String → SimBroker F → BrokerOrderStatus F × SimBroker F
  unfolding find_order canceled_status unknown_order
  cancel_order broker_order_id b = elim (find_order broker_order_id b.orders) [
    | none ↦ (unknown_order broker_order_id, b)
    | some (k, s) ↦ (
      canceled_status broker_order_id k s,
      record b { orders = put k (canceled_status broker_order_id k s) b.orders },
    )
  ]

  unfoldable pub get_order_status : String → SimBroker F → BrokerOrderStatus F
  unfolding find_order unknown_order
  get_order_status broker_order_id b = elim (find_order broker_order_id b.orders) [
    | none ↦ unknown_order broker_order_id
    | some (k, s) ↦ s
  ]

  unfoldable pub list_open_orders : Option String → SimBroker F → List (BrokerOrderStatus F)
  list_open_orders none b = keep_if (λ s. is_open s.status) (values b.orders)
  list_open_orders (some prefix) b =
      keep_if (λ s. starts_with s.client_order_id prefix)
        (keep_if (λ s. is_open s.status) (values b.orders))

  unfoldable pub get_positions : Dict (Position F) → List (BrokerPosition F)
  get_positions [] = []
  get_positions ((s, p) ∷ d) = record { symbol = s; quantity = p.quantity } ∷ get_positions d

  -- `d.get(symbol, 0.0)`
  unfoldable pub amount : String → Dict F → F
  amount symbol d = elim (get symbol d) [ none ↦ zero_f | some q ↦ q ]

  unfoldable pub add_status : BrokerOrderStatus F → Dict F → Dict F
  unfolding amount signed
  add_status s d =
      if has_fills s.status
      then put s.symbol (add_f (amount s.symbol d) (signed s.side s.filled_quantity)) d
      else d

  unfoldable pub broker_positions : List (BrokerOrderStatus F) → Dict F → Dict F
  broker_positions [] d = d
  broker_positions (s ∷ ss) d = broker_positions ss (add_status s d)

  unfoldable pub portfolio_positions : Dict (Position F) → Dict F
  portfolio_positions [] = []
  portfolio_positions ((s, p) ∷ d) = (s, p.quantity) ∷ portfolio_positions d

  abbrev pub keys : Dict F → List String
  keys [] = []
  keys ((k, _) ∷ d) = k ∷ keys d

  -- the loop of `_compare_positions` over the sorted symbols
  unfoldable pub mismatches : F → Dict F → Dict F → List String → List (Mismatch F)
  unfolding amount
  mismatches tolerance b p [] = []
  mismatches tolerance b p (s ∷ ss) =
      let rest = mismatches tolerance b p ss in
      if lt_f tolerance (abs_f (sub_f (amount s b) (amount s p)))
      then record { symbol = s; broker_quantity = amount s b; portfolio_quantity = amount s p }
        ∷ rest
      else rest

  -- `_compare_positions`; `sorted_set` sorts the symbols and drops repetitions
  unfoldable pub compare_positions :
      (List String → List String) → F → Dict F → Dict F → List (Mismatch F)
  compare_positions sorted_set tolerance b p =
      mismatches tolerance b p (sorted_set (keys b ++ keys p))

  unfoldable pub reconcile_fills : (List String → List String) → F → SimBroker F → List (Mismatch F)
  unfolding compare_positions
  reconcile_fills sorted_set tolerance b =
      compare_positions sorted_set tolerance (broker_positions (values b.orders) [])
        (portfolio_positions b.portfolio.positions)
