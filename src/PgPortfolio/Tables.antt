-- ===== src/PgPortfolio/Tables.antt =====
-- The tables `ah_portfolio_accounts`, `ah_portfolio_positions` and `ah_portfolio_fills`
-- (src/infra/postgres.py) as lists of rows, and the SQL statements of the store
-- (src/portfolio/postgres_store.py) as functions of them.
use agenthedge.Prelude.{
  ℕ, Bool, false, not, ◌&&◌, Option, none, some, List, [], ◌∷◌, String, Dict, if◌then◌else◌, ◌==◌,
  any, keep_if,
}
use agenthedge.Portfolio.{Position}

pub record AccountRow (F : Type 0) : Type 0 where
  pub account_id : String
  pub cash : F
  pub realized_pnl : F
  pub last_updated : ℕ

pub record PositionRow (F : Type 0) : Type 0 where
  pub account_id : String
  pub symbol : String
  pub quantity : F
  pub average_cost : F

-- with what `metadata_json` holds
pub record FillRow (F : Type 0) : Type 0 where
  pub account_id : String
  pub symbol : String
  pub quantity : F
  pub price : F
  pub dedup_key : Option String
  pub applied_at : ℕ
  pub position_quantity : F

pub record PortfolioDb (F : Type 0) : Type 0 where
  pub accounts : List (AccountRow F)
  pub positions : List (PositionRow F)
  pub fills : List (FillRow F)

abbrev pub has_key : String → Option String → Bool
has_key k none = false
has_key k (some j) = j == k

module _ {F : Type 0} where
  -- `SELECT cash, realized_pnl, last_updated ... WHERE account_id = ...`
  unfoldable pub find_account : String → List (AccountRow F) → Option (AccountRow F)
  find_account account [] = none
  find_account account (a ∷ accounts) =
      if a.account_id == account then some a else find_account account accounts

  -- `INSERT ... ON CONFLICT (account_id) DO NOTHING`
  unfoldable pub insert_account : AccountRow F → List (AccountRow F) → List (AccountRow F)
  insert_account new [] = new ∷ []
  insert_account new (a ∷ accounts) =
      if a.account_id == new.account_id then a ∷ accounts else a ∷ insert_account new accounts

  -- `UPDATE ... SET cash, realized_pnl, last_updated = NOW() WHERE account_id = ...`
  unfoldable pub update_account : AccountRow F → List (AccountRow F) → List (AccountRow F)
  update_account new [] = []
  update_account new (a ∷ accounts) =
      let rest = update_account new accounts in
      if a.account_id == new.account_id then new ∷ rest else a ∷ rest

  -- the primary key of a position
  abbrev pub is_row : String → String → PositionRow F → Bool
  is_row account symbol r = r.account_id == account && r.symbol == symbol

  abbrev pub position_of : PositionRow F → Position F
  position_of r = record { quantity = r.quantity; average_cost = r.average_cost }

  -- `SELECT quantity, average_cost ... WHERE account_id = ... AND symbol = ...`
  unfoldable pub find_position : String → String → List (PositionRow F) → Option (Position F)
  find_position account symbol [] = none
  find_position account symbol (r ∷ rows) =
      if is_row account symbol r then some (position_of r) else find_position account symbol rows

  -- `DELETE ... WHERE account_id = ... AND symbol = ...`
  unfoldable pub delete_position : String → String → List (PositionRow F) → List (PositionRow F)
  delete_position account symbol rows = keep_if (λ r. not (is_row account symbol r)) rows

  -- `INSERT ... ON CONFLICT (account_id, symbol) DO UPDATE SET quantity, average_cost`
  unfoldable pub upsert_position : PositionRow F → List (PositionRow F) → List (PositionRow F)
  upsert_position new [] = new ∷ []
  upsert_position new (r ∷ rows) =
      if is_row new.account_id new.symbol r then new ∷ rows else r ∷ upsert_position new rows

  -- `INSERT ... ON CONFLICT (account_id, symbol) DO UPDATE SET quantity`
  unfoldable pub upsert_quantity : PositionRow F → List (PositionRow F) → List (PositionRow F)
  upsert_quantity new [] = new ∷ []
  upsert_quantity new (r ∷ rows) =
      if is_row new.account_id new.symbol r
      then record {
        account_id = r.account_id;
        symbol = r.symbol;
        quantity = new.quantity;
        average_cost = r.average_cost;
      }
        ∷ rows
      else r ∷ upsert_quantity new rows

  -- `DELETE ... WHERE account_id = ...`
  unfoldable pub delete_positions : String → List (PositionRow F) → List (PositionRow F)
  delete_positions account rows = keep_if (λ r. not (r.account_id == account)) rows

  -- `SELECT symbol, quantity, average_cost ... WHERE account_id = ...`, before it is ordered
  unfoldable pub select_positions : String → List (PositionRow F) → Dict (Position F)
  select_positions account [] = []
  select_positions account (r ∷ rows) =
      let rest = select_positions account rows in
      if r.account_id == account then (r.symbol, position_of r) ∷ rest else rest

  -- the row that `SELECT 1 ... WHERE account_id = ... AND dedup_key = ...` looks for
  unfoldable pub fill_recorded : String → String → List (FillRow F) → Bool
  fill_recorded account k fills = any (λ f. f.account_id == account && has_key k f.dedup_key) fills

  -- `UNIQUE (account_id, dedup_key)` refuses an `INSERT`; NULL keys never clash
  unfoldable pub violates_unique : FillRow F → List (FillRow F) → Bool
  violates_unique f fills = elim f.dedup_key [
    | none ↦ false
    | some k ↦ fill_recorded f.account_id k fills
  ]
