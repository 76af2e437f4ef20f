-- ===== src/Orders.antt =====
-- The order ledger of `ExecutionAgent` (src/agents/impl/execution.py): a record for each broker order,
-- and how much of it has reached the portfolio. The file holds what memory holds, since every change
-- is saved whole; records that are not dicts are not modelled.
pub mod Once
mod Tests
use agenthedge.Prelude.{
  ℕ, Bool, true, false, ◌||◌, Option, none, some, List, [], ◌∷◌, String, Dict, get, put,
  if◌then◌else◌, Result, ok, err,
}
use agenthedge.Values.{Value, null, Payload, get_value}
use agenthedge.Floats.{Floats}
use agenthedge.Portfolio.{Portfolio, Fill, StoreError, apply_fill, fill_of, max_f}
use agenthedge.Broker.{
  BrokerOrderStatus, OrderSide, OrderStatus, filled, rejected, canceled, signed,
}

-- the identifiers that a record takes over from a payload or an older record
pub record Source (F : Type 0) : Type 0 where
  pub proposal_id : Value F
  pub decision_id : Value F
  pub director_approval_id : Value F
  pub strategies : Value F

pub record OrderRecord (F : Type 0) : Type 0 where
  pub status : BrokerOrderStatus F
  pub updated_at : ℕ
  pub source : Source F
  pub limit_price : Option F
  pub persisted_filled_quantity : F
  pub closed : Bool

-- what `_persist_new_broker_fill` returns for the bus
pub record FillEvent (F : Type 0) : Type 0 where
  pub source : Source F
  pub symbol : String
  pub price : F
  pub quantity : F
  pub broker_order : BrokerOrderStatus F
  pub portfolio : Fill F

abbrev pub is_closing : OrderStatus → Bool
is_closing filled = true
is_closing rejected = true
is_closing canceled = true
is_closing _ = false

module _ {F : Type 0} where
  unfoldable pub source_of : Payload F → Source F
  source_of payload = record {
    proposal_id = get_value "proposal_id" payload;
    decision_id = get_value "decision_id" payload;
    director_approval_id = get_value "director_approval_id" payload;
    strategies = get_value "strategies" payload;
  }

  abbrev pub no_source : Source F
  no_source = record {
    proposal_id = null;
    decision_id = null;
    director_approval_id = null;
    strategies = null;
  }

  -- `if source.get(key) is not None: record[key] = source.get(key)`
  abbrev pub or_old : Value F → Value F → Value F
  or_old null old = old
  or_old new old = new

  abbrev pub update_source : Source F → Source F → Source F
  update_source new old = record {
    proposal_id = or_old new.proposal_id old.proposal_id;
    decision_id = or_old new.decision_id old.decision_id;
    director_approval_id = or_old new.director_approval_id old.director_approval_id;
    strategies = or_old new.strategies old.strategies;
  }

  abbrev pub or_price : Option F → Option F → Option F
  or_price none old = old
  or_price (some p) old = some p

module _ (fl : Floats) where
  open fl use {F, zero_f, sub_f, le_f, eq_f}

  -- the record that a status is written into: the one on file, or an empty one
  unfoldable pub record_or_new : BrokerOrderStatus F → Option (OrderRecord F) → OrderRecord F
  record_or_new status none = record {
    status = status;
    updated_at = 0;
    source = no_source;
    limit_price = none;
    persisted_filled_quantity = zero_f;
    closed = false;
  }
  record_or_new status (some r) = r

  abbrev closed_or : Option Bool → OrderStatus → Bool
  closed_or none s = is_closing s
  closed_or (some c) s = c

  -- `_record_order_status`, as the record that it leaves in the ledger
  unfoldable pub order_record :
      ℕ
      → BrokerOrderStatus F
      → Source F
      → Option F
      → Option Bool
      → Dict (OrderRecord F)
      → OrderRecord F
  unfolding record_or_new
  order_record now status source limit_price closed ledger =
      let old = record_or_new status (get status.broker_order_id ledger) in
      record {
        status = status;
        updated_at = now;
        source = update_source source old.source;
        limit_price = or_price limit_price old.limit_price;
        persisted_filled_quantity = old.persisted_filled_quantity;
        closed = closed_or closed status.status;
      }

  -- `x or fallback`
  abbrev pub or_else_f : Option F → F → F
  or_else_f none fallback = fallback
  or_else_f (some p) fallback = if eq_f p zero_f then fallback else p

  -- the part of the filled quantity that the portfolio has not seen
  unfoldable pub unseen : OrderRecord F → BrokerOrderStatus F → F
  unseen r status =
      max_f fl zero_f
        (sub_f status.filled_quantity (or_else_f (some r.persisted_filled_quantity) zero_f))

  -- the fill, and the portfolio after it
  unfoldable pub fill_portfolio :
      ℕ → BrokerOrderStatus F → F → F → Portfolio F → Result StoreError (Fill F) × Portfolio F
  fill_portfolio now status quantity price st =
      if status.portfolio_persisted
      then (ok (fill_of fl status.symbol st), st)
      else apply_fill fl now status.symbol quantity price st

  -- the record after its fill has reached the portfolio
  unfoldable pub persisted_record : ℕ → OrderRecord F → BrokerOrderStatus F → OrderRecord F
  persisted_record now r status = record r {
    status = record r.status {
      status = status.status;
      filled_quantity = status.filled_quantity;
      average_fill_price = status.average_fill_price;
    };
    updated_at = now;
    persisted_filled_quantity = status.filled_quantity;
    closed = is_closing status.status;
  }

  pub record Persisted : Type 0 where
    pub event : Option (FillEvent F)
    pub ledger : Dict (OrderRecord F)
    pub portfolio : Portfolio F

  abbrev pub settle_persist :
      ℕ
      → OrderRecord F
      → BrokerOrderStatus F
      → F
      → F
      → Dict (OrderRecord F)
      → Result StoreError (Fill F) × Portfolio F
      → Result StoreError Persisted
  settle_persist now r status price quantity ledger (err e, st) = err e
  settle_persist now r status price quantity ledger (ok fill, st) = ok (record {
    event = some (record {
      source = r.source;
      symbol = status.symbol;
      price = price;
      quantity = quantity;
      broker_order = status;
      portfolio = fill;
    });
    ledger = put status.broker_order_id (persisted_record now r status) ledger;
    portfolio = st;
  })

  -- `_persist_new_broker_fill`
  unfoldable pub persist_new_fill :
      ℕ
      → OrderRecord F
      → BrokerOrderStatus F
      → F
      → Dict (OrderRecord F)
      → Portfolio F
      → Result StoreError Persisted
  unfolding unseen
  persist_new_fill now r status fallback_price ledger st =
      let delta = unseen r status in
      let price = or_else_f status.average_fill_price fallback_price in
      let quantity = signed fl status.side delta in
      if le_f delta zero_f || le_f price zero_f
      then ok (record { event = none; ledger = ledger; portfolio = st })
      else settle_persist now r status price quantity ledger
          (fill_portfolio now status quantity price st)
