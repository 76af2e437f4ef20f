-- ===== src/PgPortfolio/Loading.antt =====
-- `snapshot` and `bulk_load` of `PostgresPortfolioStore` (src/portfolio/postgres_store.py). `before`
-- is the order of the database's collation.
use agenthedge.Prelude.{
  ℕ, Bool, Option, none, some, List, [], ◌∷◌, ◌++◌, String, Dict, put, if◌then◌else◌, Result, ok,
  err, is_some,
}
use agenthedge.Portfolio.{Position, Portfolio, LoadedPosition}
use agenthedge.PgPortfolio.Tables.{
  AccountRow, PositionRow, PortfolioDb, find_account, update_account, find_position,
  delete_positions, select_positions,
}
use agenthedge.PgPortfolio.Store.{DbError, account_missing, unique_violation, foreign_key_violation}

module _ {F : Type 0} where
  -- `ORDER BY symbol`
  unfoldable pub insert_ordered :
      (String → String → Bool) → String → Position F → Dict (Position F) → Dict (Position F)
  insert_ordered before s p [] = (s, p) ∷ []
  insert_ordered before s p ((j, q) ∷ d) =
      if before j s then (j, q) ∷ insert_ordered before s p d else (s, p) ∷ (j, q) ∷ d

  unfoldable pub ordered : (String → String → Bool) → Dict (Position F) → Dict (Position F)
  ordered before [] = []
  ordered before ((s, p) ∷ d) = insert_ordered before s p (ordered before d)

  -- `positions[symbol] = Position(...)` for each row
  unfoldable pub load_rows : Dict (Position F) → Dict (Position F) → Dict (Position F)
  load_rows [] d = d
  load_rows ((s, p) ∷ rows) d = load_rows rows (put s p d)

  unfoldable pub snapshot :
      (String → String → Bool) → String → PortfolioDb F → Result DbError (Portfolio F)
  snapshot before account db = elim (find_account account db.accounts) [
    | none ↦ err account_missing
    | some a ↦ ok (record {
      cash = a.cash;
      realized_pnl = a.realized_pnl;
      positions = load_rows (ordered before (select_positions account db.positions)) [];
      last_updated = a.last_updated;
    })
  ]

  -- the `INSERT`s of `bulk_load`: a position has an account, and its key once
  unfoldable pub insert_positions :
      String
      → List (LoadedPosition F)
      → List (AccountRow F)
      → List (PositionRow F)
      → Result DbError (List (PositionRow F))
  insert_positions account [] accounts rows = ok rows
  insert_positions account (p ∷ ps) accounts rows =
      let new : PositionRow F = record {
        account_id = account;
        symbol = p.symbol;
        quantity = p.quantity;
        average_cost = p.average_cost;
      } in
      let rest = insert_positions account ps accounts (rows ++ (new ∷ [])) in
      if is_some (find_position account p.symbol rows)
      then err unique_violation
      else elim (find_account account accounts) [ none ↦ err foreign_key_violation | some a ↦ rest ]

  -- the `UPDATE` of `bulk_load`
  unfoldable pub set_cash : ℕ → String → Option F → List (AccountRow F) → List (AccountRow F)
  set_cash now account none accounts = accounts
  set_cash now account (some c) accounts = elim (find_account account accounts) [
    | none ↦ accounts
    | some a ↦
        update_account
          (record {
            account_id = account;
            cash = c;
            realized_pnl = a.realized_pnl;
            last_updated = now;
          })
          accounts
  ]

  -- `bulk_load`; the snapshot that it mirrors fails where the account is missing, when the rows
  -- are written already
  unfoldable pub load_keyed :
      ℕ
      → String
      → List (LoadedPosition F)
      → Option F
      → PortfolioDb F
      → Result DbError Unit × PortfolioDb F
  load_keyed now account ps cash db =
      elim (insert_positions account ps db.accounts (delete_positions account db.positions)) [
        | err e ↦ (err e, db)
        | ok rows ↦
            let db' : PortfolioDb F = record {
              accounts = set_cash now account cash db.accounts;
              positions = rows;
              fills = db.fills;
            } in
            (if is_some (find_account account db.accounts) then ok tt else err account_missing, db')
      ]
