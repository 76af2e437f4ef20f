-- ===== src/PgPortfolio/Unique.antt =====
-- The primary key of the positions, and that a statement on one account leaves the others' rows.
use agenthedge.Prelude.{
  ◌≡◌, refl, ◌∙◌, false, List, [], ◌∷◌, String, get, IsDict, ◌==◌, if_both, eq_iff, arith,
}
use agenthedge.Floats.{Floats}
use agenthedge.PgPortfolio.Tables.{
  AccountRow, PositionRow, find_account, update_account, delete_position, upsert_position,
  upsert_quantity, select_positions,
}
use agenthedge.PgPortfolio.Store.{write_position}
use agenthedge.PgPortfolio.Rows.{
  find_account-update, find_position-delete, find_position-upsert, find_position-upsert_quantity,
  get-select,
}

module _ {F : Type 0} where
  -- An account has a symbol once.
  abbrev pub IsUnique : String → List (PositionRow F) → Type 0
  IsUnique account rows = IsDict (select_positions account rows)

  delete_position-IsUnique :
      (account symbol account' : String) (rows : List (PositionRow F))
      → IsUnique account' rows
      → IsUnique account' (delete_position account symbol rows)
  unfolding delete_position select_positions
  delete_position-IsUnique account symbol account' [] h = tt
  delete_position-IsUnique account symbol account' (r ∷ rows) h = ground (
    arith,
    get-select account' r.symbol rows,
    get-select account' r.symbol (delete_position account symbol rows),
    find_position-delete account symbol account' r.symbol rows,
    delete_position-IsUnique account symbol account' rows,
  )

  upsert_position-IsUnique :
      (new : PositionRow F) (account : String) (rows : List (PositionRow F))
      → IsUnique account rows
      → IsUnique account (upsert_position new rows)
  unfolding upsert_position select_positions get
  upsert_position-IsUnique new account [] h = ground arith
  upsert_position-IsUnique new account (r ∷ rows) h = ground (
    arith,
    eq_iff r.account_id account,
    eq_iff r.account_id new.account_id,
    eq_iff new.account_id account,
    eq_iff r.symbol new.symbol,
    eq_iff new.symbol r.symbol,
    get-select account r.symbol rows,
    get-select account r.symbol (upsert_position new rows),
    find_position-upsert new account r.symbol rows,
    upsert_position-IsUnique new account rows,
  )

  upsert_quantity-IsUnique :
      (new : PositionRow F) (account : String) (rows : List (PositionRow F))
      → IsUnique account rows
      → IsUnique account (upsert_quantity new rows)
  unfolding upsert_quantity select_positions get
  upsert_quantity-IsUnique new account [] h = ground arith
  upsert_quantity-IsUnique new account (r ∷ rows) h = ground (
    arith,
    eq_iff r.account_id account,
    eq_iff r.account_id new.account_id,
    eq_iff new.account_id account,
    eq_iff r.symbol new.symbol,
    eq_iff new.symbol r.symbol,
    get-select account r.symbol rows,
    get-select account r.symbol (upsert_quantity new rows),
    find_position-upsert_quantity new account r.symbol rows,
    upsert_quantity-IsUnique new account rows,
  )

  delete_position-other :
      (account symbol account' : String) (rows : List (PositionRow F))
      → (account == account') ≡ false
      → select_positions account' (delete_position account symbol rows)
        ≡ select_positions account' rows
  unfolding delete_position select_positions
  delete_position-other account symbol account' [] n = refl
  delete_position-other account symbol account' (r ∷ rows) n = ground (
    arith,
    eq_iff r.account_id account,
    eq_iff r.account_id account',
    eq_iff account account',
    delete_position-other account symbol account' rows,
  )

  upsert_position-other :
      (new : PositionRow F) (account : String) (rows : List (PositionRow F))
      → (new.account_id == account) ≡ false
      → select_positions account (upsert_position new rows) ≡ select_positions account rows
  unfolding upsert_position select_positions
  upsert_position-other new account [] n = ground arith
  upsert_position-other new account (r ∷ rows) n = ground (
    arith,
    eq_iff r.account_id new.account_id,
    eq_iff r.account_id account,
    eq_iff new.account_id account,
    upsert_position-other new account rows,
  )

  upsert_quantity-other :
      (new : PositionRow F) (account : String) (rows : List (PositionRow F))
      → (new.account_id == account) ≡ false
      → select_positions account (upsert_quantity new rows) ≡ select_positions account rows
  unfolding upsert_quantity select_positions
  upsert_quantity-other new account [] n = ground arith
  upsert_quantity-other new account (r ∷ rows) n = ground (
    arith,
    eq_iff r.account_id new.account_id,
    eq_iff r.account_id account,
    eq_iff new.account_id account,
    upsert_quantity-other new account rows,
  )

  pub update_account-other :
      (new : AccountRow F) (account : String) (accounts : List (AccountRow F))
      → (new.account_id == account) ≡ false
      → find_account account (update_account new accounts) ≡ find_account account accounts
  update_account-other new account accounts n = find_account-update new account accounts ∙ rw n refl

module _ (fl : Floats) where
  open fl use {F}

  pub write_position-IsUnique :
      (account symbol account' : String) (existing_qty existing_cost quantity price : F)
      (rows : List (PositionRow F))
      → IsUnique account' rows
      → IsUnique account'
          (write_position fl account symbol existing_qty existing_cost quantity price rows)
  unfolding write_position
  write_position-IsUnique account symbol account' existing_qty existing_cost quantity price rows h =
      if_both (IsUnique account') _ (delete_position-IsUnique account symbol account' rows h) (
        if_both (IsUnique account') _ (upsert_position-IsUnique _ account' rows h)
          (upsert_quantity-IsUnique _ account' rows h))

  pub write_position-other :
      (account symbol account' : String) (existing_qty existing_cost quantity price : F)
      (rows : List (PositionRow F))
      → (account == account') ≡ false
      → select_positions account'
          (write_position fl account symbol existing_qty existing_cost quantity price rows)
        ≡ select_positions account' rows
  unfolding write_position
  write_position-other account symbol account' existing_qty existing_cost quantity price rows n =
      if_both (λ v. select_positions account' v ≡ select_positions account' rows) _
        (delete_position-other account symbol account' rows n)
        (if_both (λ v. select_positions account' v ≡ select_positions account' rows) _
          (upsert_position-other _ account' rows n) (upsert_quantity-other _ account' rows n))
