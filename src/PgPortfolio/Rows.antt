-- ===== src/PgPortfolio/Rows.antt =====
-- What a lookup finds after each statement on the tables of the portfolio.
use agenthedge.Prelude.{
  ◌≡◌, refl, ◌&&◌, ◌||◌, Option, none, some, List, [], ◌∷◌, ◌++◌, String, get, if◌then◌else◌, ◌==◌,
  eq_iff, arith,
}
use agenthedge.Portfolio.{Position}
use agenthedge.PgPortfolio.Tables.{
  AccountRow, PositionRow, FillRow, find_account, insert_account, update_account, is_row,
  position_of, find_position, delete_position, upsert_position, upsert_quantity, delete_positions,
  select_positions, has_key, fill_recorded,
}

-- the cost of a position, or that of a new one
abbrev pub cost_or : {F : Type 0} → F → Option (Position F) → F
cost_or c none = c
cost_or c (some p) = p.average_cost

module _ {F : Type 0} where
  pub find_account-update :
      (new : AccountRow F) (account : String) (accounts : List (AccountRow F))
      → find_account account (update_account new accounts) ≡ (
          if new.account_id == account
          then (elim (find_account account accounts) [ none ↦ none | some a ↦ some new ])
          else find_account account accounts)
  unfolding find_account update_account
  find_account-update new account [] = ground arith
  find_account-update new account (a ∷ accounts) = ground (
    arith,
    eq_iff a.account_id new.account_id,
    eq_iff a.account_id account,
    eq_iff new.account_id account,
    find_account-update new account accounts,
  )

  pub find_account-insert :
      (new : AccountRow F) (account : String) (accounts : List (AccountRow F))
      → find_account account (insert_account new accounts) ≡ (elim (find_account account accounts) [
        | none ↦ if new.account_id == account then some new else none
        | some a ↦ some a
      ])
  unfolding find_account insert_account
  find_account-insert new account [] = refl
  find_account-insert new account (a ∷ accounts) = ground (
    arith,
    eq_iff a.account_id new.account_id,
    eq_iff a.account_id account,
    eq_iff new.account_id account,
    find_account-insert new account accounts,
  )

  pub find_position-delete :
      (account symbol account' symbol' : String) (rows : List (PositionRow F))
      → find_position account' symbol' (delete_position account symbol rows) ≡ (
          if account == account' && symbol == symbol'
          then none
          else find_position account' symbol' rows)
  unfolding find_position delete_position
  find_position-delete account symbol account' symbol' [] = ground arith
  find_position-delete account symbol account' symbol' (r ∷ rows) = ground (
    arith,
    eq_iff r.account_id account,
    eq_iff r.account_id account',
    eq_iff account account',
    eq_iff r.symbol symbol,
    eq_iff r.symbol symbol',
    eq_iff symbol symbol',
    find_position-delete account symbol account' symbol' rows,
  )

  pub find_position-upsert :
      (new : PositionRow F) (account symbol : String) (rows : List (PositionRow F))
      → find_position account symbol (upsert_position new rows) ≡ (
          if new.account_id == account && new.symbol == symbol
          then some (position_of new)
          else find_position account symbol rows)
  unfolding find_position upsert_position
  find_position-upsert new account symbol [] = refl
  find_position-upsert new account symbol (r ∷ rows) = ground (
    arith,
    eq_iff r.account_id account,
    eq_iff r.account_id new.account_id,
    eq_iff new.account_id account,
    eq_iff r.symbol symbol,
    eq_iff r.symbol new.symbol,
    eq_iff new.symbol symbol,
    find_position-upsert new account symbol rows,
  )

  -- The row keeps its cost, and a new row has the cost given.
  pub find_position-upsert_quantity :
      (new : PositionRow F) (account symbol : String) (rows : List (PositionRow F))
      → find_position account symbol (upsert_quantity new rows) ≡ (
          if new.account_id == account && new.symbol == symbol
          then some (record {
            quantity = new.quantity;
            average_cost = cost_or new.average_cost (find_position account symbol rows);
          })
          else find_position account symbol rows)
  unfolding find_position upsert_quantity
  find_position-upsert_quantity new account symbol [] = refl
  find_position-upsert_quantity new account symbol (r ∷ rows) = ground (
    arith,
    eq_iff r.account_id account,
    eq_iff r.account_id new.account_id,
    eq_iff new.account_id account,
    eq_iff r.symbol symbol,
    eq_iff r.symbol new.symbol,
    eq_iff new.symbol symbol,
    find_position-upsert_quantity new account symbol rows,
  )

  pub find_position-delete_all :
      (account account' symbol : String) (rows : List (PositionRow F))
      → find_position account' symbol (delete_positions account rows)
        ≡ (if account == account' then none else find_position account' symbol rows)
  unfolding find_position delete_positions
  find_position-delete_all account account' symbol [] = ground arith
  find_position-delete_all account account' symbol (r ∷ rows) = ground (
    arith,
    eq_iff r.account_id account,
    eq_iff r.account_id account',
    eq_iff account account',
    find_position-delete_all account account' symbol rows,
  )

  pub find_position-append :
      (new : PositionRow F) (account symbol : String) (rows : List (PositionRow F))
      → find_position account symbol (rows ++ (new ∷ []))
        ≡ (elim (find_position account symbol rows) [
          | none ↦ if is_row account symbol new then some (position_of new) else none
          | some p ↦ some p
        ])
  unfolding find_position
  find_position-append new account symbol [] = refl
  find_position-append new account symbol (r ∷ rows) =
      ground (arith, find_position-append new account symbol rows)

  -- The positions selected hold what the rows hold.
  pub get-select :
      (account symbol : String) (rows : List (PositionRow F))
      → get symbol (select_positions account rows) ≡ find_position account symbol rows
  unfolding get select_positions find_position
  get-select account symbol [] = refl
  get-select account symbol (r ∷ rows) = ground (arith, get-select account symbol rows)

  pub fill_recorded-append :
      (f : FillRow F) (account k : String) (fills : List (FillRow F))
      → fill_recorded account k (fills ++ (f ∷ []))
        ≡ (fill_recorded account k fills || (f.account_id == account && has_key k f.dedup_key))
  unfolding fill_recorded
  fill_recorded-append f account k [] = ground arith
  fill_recorded-append f account k (g ∷ fills) =
      ground (arith, fill_recorded-append f account k fills)
