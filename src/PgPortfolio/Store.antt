-- ===== src/PgPortfolio/Store.antt =====
-- The methods of `PostgresPortfolioStore` (src/portfolio/postgres_store.py). Each is one transaction:
-- an exception inside it leaves the tables as they were. `NOW()` and `datetime.now` are an argument.
use agenthedge.Prelude.{
  ℕ, Bool, false, not, ◌&&◌, ◌||◌, Option, none, some, List, [], ◌∷◌, ◌++◌, String, if◌then◌else◌,
  ◌==◌, Result, ok, err,
}
use agenthedge.Floats.{Floats}
use agenthedge.Portfolio.{
  Position, Fill, StoreError, zero_quantity, price_not_positive, min_f, nonzero, same_sign,
}
use agenthedge.PgPortfolio.Tables.{
  AccountRow, PositionRow, FillRow, PortfolioDb, find_account, insert_account, update_account,
  find_position, delete_position, upsert_position, upsert_quantity, fill_recorded, violates_unique,
}

-- what a method raises
pub data DbError : Type 0 where
  refused : StoreError → DbError
  account_missing unique_violation foreign_key_violation mirror_failed : DbError

-- what a request to fill names, and whether the write of the mirror file raises in it
pub record KeyedFill (F : Type 0) : Type 0 where
  pub symbol : String
  pub quantity : F
  pub price : F
  pub dedup_key : Option String
  pub mirror_raises : Bool

module _ (fl : Floats) where
  open fl use {F, zero_f, one_f, add_f, sub_f, mul_f, div_f, neg_f, abs_f, lt_f, le_f, eq_f}

  -- `_ensure_account`
  unfoldable pub ensure_account : ℕ → String → F → PortfolioDb F → PortfolioDb F
  ensure_account now account initial_cash db = record db {
    accounts =
        insert_account
          (record {
            account_id = account;
            cash = initial_cash;
            realized_pnl = zero_f;
            last_updated = now;
          })
          db.accounts;
  }

  -- `if dedup_key:` and the query under it
  unfoldable pub already_filled : String → Option String → List (FillRow F) → Bool
  already_filled account none fills = false
  already_filled account (some k) fills = not (k == "") && fill_recorded account k fills

  abbrev pub row_quantity : Option (Position F) → F
  row_quantity none = zero_f
  row_quantity (some p) = p.quantity

  abbrev pub row_cost : F → Option (Position F) → F
  row_cost price none = price
  row_cost price (some p) = p.average_cost

  -- `realized`, from the quantity and cost before the fill
  unfoldable pub closing_pnl : F → F → F → F → F
  unfolding nonzero min_f
  closing_pnl existing_qty existing_cost quantity price =
      if nonzero fl existing_qty
        && not (same_sign fl (lt_f zero_f existing_qty) (lt_f zero_f quantity))
      then (let closing_qty = min_f fl (abs_f existing_qty) (abs_f quantity) in
          let direction = if lt_f zero_f existing_qty then one_f else neg_f one_f in
          add_f zero_f (mul_f (mul_f (sub_f price existing_cost) closing_qty) direction))
      else zero_f

  -- the rows of the positions after the fill
  unfoldable pub write_position :
      String → String → F → F → F → F → List (PositionRow F) → List (PositionRow F)
  unfolding nonzero
  write_position account symbol existing_qty existing_cost quantity price rows =
      let new_qty = add_f existing_qty quantity in
      let total_cost = add_f (mul_f existing_cost existing_qty) (mul_f price quantity) in
      if eq_f new_qty zero_f
      then delete_position account symbol rows
      else if (le_f zero_f existing_qty && lt_f zero_f quantity)
          || (le_f existing_qty zero_f && lt_f quantity zero_f)
      then upsert_position
          (record {
            account_id = account;
            symbol = symbol;
            quantity = new_qty;
            average_cost = if nonzero fl new_qty then div_f total_cost new_qty else price;
          })
          rows
      else upsert_quantity
          (record {
            account_id = account;
            symbol = symbol;
            quantity = new_qty;
            average_cost = existing_cost;
          })
          rows

  -- `position_qty`
  unfoldable pub position_qty : F → F → F
  position_qty existing_qty quantity =
      let new_qty = add_f existing_qty quantity in if eq_f new_qty zero_f then zero_f else new_qty

  -- the row that `INSERT INTO ah_portfolio_fills` writes
  abbrev pub fill_row : ℕ → String → KeyedFill F → F → FillRow F
  fill_row now account r held = record {
    account_id = account;
    symbol = r.symbol;
    quantity = r.quantity;
    price = r.price;
    dedup_key = r.dedup_key;
    applied_at = now;
    position_quantity = held;
  }

  -- the part of `apply_fill` after both lookups; the mirror is written within the transaction
  unfoldable pub write_fill :
      ℕ
      → String
      → AccountRow F
      → KeyedFill F
      → PortfolioDb F
      → Result DbError (Fill F) × PortfolioDb F
  unfolding closing_pnl write_position position_qty
  write_fill now account a r db =
      let row = find_position account r.symbol db.positions in
      let existing_qty = row_quantity row in
      let existing_cost = row_cost r.price row in
      let new_cash = sub_f a.cash (mul_f r.quantity r.price) in
      let new_realized =
        add_f a.realized_pnl (closing_pnl existing_qty existing_cost r.quantity r.price) in
      let held = position_qty existing_qty r.quantity in
      let fill = fill_row now account r held in
      if violates_unique fill db.fills
      then (err unique_violation, db)
      else if r.mirror_raises
      then (err mirror_failed, db)
      else (
        ok (record { cash = new_cash; realized_pnl = new_realized; position_quantity = held }),
        record {
          accounts =
              update_account
                (record {
                  account_id = account;
                  cash = new_cash;
                  realized_pnl = new_realized;
                  last_updated = now;
                })
                db.accounts;
          positions =
              write_position account r.symbol existing_qty existing_cost r.quantity r.price
                db.positions;
          fills = db.fills ++ (fill ∷ []);
        },
      )

  unfoldable pub apply_keyed :
      ℕ → String → KeyedFill F → PortfolioDb F → Result DbError (Fill F) × PortfolioDb F
  unfolding already_filled write_fill
  apply_keyed now account r db =
      if eq_f r.quantity zero_f
      then (err (refused zero_quantity), db)
      else if le_f r.price zero_f
      then (err (refused price_not_positive), db)
      else elim (find_account account db.accounts) [
        | none ↦ (err account_missing, db)
        | some a ↦
            if already_filled account r.dedup_key db.fills
            then (
              ok (record {
                cash = a.cash;
                realized_pnl = a.realized_pnl;
                position_quantity = row_quantity (find_position account r.symbol db.positions);
              }),
              db,
            )
            else write_fill now account a r db
      ]
