-- ===== src/Portfolio.antt =====
-- `PortfolioStore` (src/portfolio/store.py): fills on an in-memory portfolio, which every change
-- writes to disk whole. `datetime.now` is an argument.
pub mod Ledger
mod Tests
use agenthedge.Prelude.{
  ℕ, Bool, true, false, not, ◌&&◌, ◌||◌, Option, none, some, List, [], ◌∷◌, String, Dict, get, put,
  pop, if◌then◌else◌, Result, ok, err,
}
use agenthedge.Floats.{Floats}

pub record Position (F : Type 0) : Type 0 where
  pub quantity : F
  pub average_cost : F

pub record Portfolio (F : Type 0) : Type 0 where
  pub cash : F
  pub realized_pnl : F
  pub positions : Dict (Position F)
  pub last_updated : ℕ

-- what `apply_fill` returns
pub record Fill (F : Type 0) : Type 0 where
  pub cash : F
  pub realized_pnl : F
  pub position_quantity : F

pub data StoreError : Type 0 where
  zero_quantity price_not_positive : StoreError

-- an item of `bulk_load`
pub record LoadedPosition (F : Type 0) : Type 0 where
  pub symbol : String
  pub quantity : F
  pub average_cost : F

module _ (fl : Floats) where
  open fl use {F, zero_f, one_f, add_f, sub_f, mul_f, div_f, neg_f, abs_f, lt_f, le_f, eq_f}

  -- Python's `min` and `max` keep their first argument on a tie
  unfoldable pub min_f : F → F → F
  min_f a b = if lt_f b a then b else a

  unfoldable pub max_f : F → F → F
  max_f a b = if lt_f a b then b else a

  -- `bool(x)`
  unfoldable pub nonzero : F → Bool
  nonzero x = not (eq_f x zero_f)

  abbrev pub same_sign : Bool → Bool → Bool
  same_sign true b = b
  same_sign false b = not b

  -- `positions.setdefault(symbol, ...)`, as the position that it gives
  unfoldable pub position_or_new : Option (Position F) → F → Position F
  position_or_new none price = record { quantity = zero_f; average_cost = price }
  position_or_new (some p) price = p

  -- the realized profit of the part that a fill closes
  unfoldable pub realized : Position F → F → F → F
  unfolding nonzero min_f
  realized p quantity price =
      if nonzero p.quantity && not (same_sign (lt_f zero_f p.quantity) (lt_f zero_f quantity))
      then (let closing_qty = min_f (abs_f p.quantity) (abs_f quantity) in
          let direction = if lt_f zero_f p.quantity then one_f else neg_f one_f in
          add_f zero_f (mul_f (mul_f (sub_f price p.average_cost) closing_qty) direction))
      else zero_f

  -- the average cost after a fill that does not close the position
  unfoldable pub new_average : Position F → F → F → F
  unfolding nonzero
  new_average p quantity price =
      let new_qty = add_f p.quantity quantity in
      let total_cost = add_f (mul_f p.average_cost p.quantity) (mul_f price quantity) in
      if (le_f zero_f p.quantity && lt_f zero_f quantity)
        || (le_f p.quantity zero_f && lt_f quantity zero_f)
      then (if nonzero new_qty then div_f total_cost new_qty else price)
      else p.average_cost

  unfoldable pub settle_position :
      String → Position F → F → F → Dict (Position F) → Dict (Position F)
  unfolding new_average
  settle_position symbol p quantity price positions =
      let new_qty = add_f p.quantity quantity in
      if eq_f new_qty zero_f
      then pop symbol positions
      else put symbol (record { quantity = new_qty; average_cost = new_average p quantity price })
          positions

  -- `position.quantity if position else 0.0`
  unfoldable pub quantity_of : String → Dict (Position F) → F
  quantity_of symbol positions = elim (get symbol positions) [ none ↦ zero_f | some p ↦ p.quantity ]

  unfoldable pub filled : ℕ → String → F → F → Portfolio F → Portfolio F
  unfolding settle_position position_or_new
  filled now symbol quantity price st =
      let p = position_or_new (get symbol st.positions) price in
      record {
        cash = add_f st.cash (neg_f (mul_f quantity price));
        realized_pnl = add_f st.realized_pnl (realized p quantity price);
        positions = settle_position symbol p quantity price st.positions;
        last_updated = now;
      }

  unfoldable pub fill_of : String → Portfolio F → Fill F
  unfolding quantity_of
  fill_of symbol st = record {
    cash = st.cash;
    realized_pnl = st.realized_pnl;
    position_quantity = quantity_of symbol st.positions;
  }

  unfoldable pub apply_fill :
      ℕ → String → F → F → Portfolio F → Result StoreError (Fill F) × Portfolio F
  apply_fill now symbol quantity price st =
      let st' = filled now symbol quantity price st in
      if eq_f quantity zero_f
      then (err zero_quantity, st)
      else if le_f price zero_f
      then (err price_not_positive, st)
      else (ok (fill_of symbol st'), st')

  unfoldable pub load_positions : List (LoadedPosition F) → Dict (Position F) → Dict (Position F)
  load_positions [] d = d
  load_positions (p ∷ ps) d =
      load_positions ps
        (put p.symbol (record { quantity = p.quantity; average_cost = p.average_cost }) d)

  unfoldable pub bulk_load : ℕ → List (LoadedPosition F) → Option F → Portfolio F → Portfolio F
  bulk_load now positions cash st = record {
    cash = elim cash [ none ↦ st.cash | some c ↦ c ];
    realized_pnl = st.realized_pnl;
    positions = load_positions positions [];
    last_updated = now;
  }
