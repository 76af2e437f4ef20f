-- ===== src/PgPortfolio/Inserts.antt =====
-- The inserts of `bulk_load` where a symbol is repeated (src/portfolio/postgres_store.py).
use agenthedge.Prelude.{
  ◌≡◌, refl, Bool, true, false, not, ◌&&◌, none, some, List, [], ◌∷◌, ◌++◌, String, Dict, get, put,
  get-put, ◌==◌, eq_iff, eq_refl, arith, any, All, is_some, err,
}
use agenthedge.Portfolio.{Position, LoadedPosition}
use agenthedge.PgPortfolio.Tables.{AccountRow, PositionRow, find_account, find_position}
use agenthedge.PgPortfolio.Store.{unique_violation}
use agenthedge.PgPortfolio.Loading.{insert_positions}
use agenthedge.PgPortfolio.Rows.{find_position-append}

module _ {F : Type 0} where
  -- no symbol stands twice
  abbrev pub distinct : List (LoadedPosition F) → Bool
  distinct [] = true
  distinct (p ∷ ps) = not (any (λ q. q.symbol == p.symbol) ps) && distinct ps

  abbrev pub loaded_row : String → LoadedPosition F → PositionRow F
  loaded_row account p = record {
    account_id = account;
    symbol = p.symbol;
    quantity = p.quantity;
    average_cost = p.average_cost;
  }

  taken-append :
      (account : String) (new : PositionRow F) (ps : List (LoadedPosition F))
      (rows : List (PositionRow F))
      → any (λ q. is_some (find_position account q.symbol rows)) ps ≡ true
      → any (λ q. is_some (find_position account q.symbol (rows ++ (new ∷ [])))) ps ≡ true
  taken-append account new [] rows h = h
  taken-append account new (q ∷ ps) rows h =
      ground
        (arith, find_position-append new account q.symbol rows, taken-append account new ps rows)

  -- A symbol that is there already is refused, wherever it stands in the list.
  insert-clash :
      (account : String) (a : AccountRow F) (ps : List (LoadedPosition F))
      (accounts : List (AccountRow F)) (rows : List (PositionRow F))
      → find_account account accounts ≡ some a
      → any (λ q. is_some (find_position account q.symbol rows)) ps ≡ true
      → insert_positions account ps accounts rows ≡ err unique_violation
  unfolding insert_positions
  insert-clash account a [] accounts rows f h = cc
  insert-clash account a (p ∷ ps) accounts rows f h = ground (
    arith,
    taken-append account (loaded_row account p) ps rows,
    insert-clash account a ps accounts (rows ++ (loaded_row account p ∷ [])),
  )

  same_symbol-taken :
      (account : String) (p : LoadedPosition F) (ps : List (LoadedPosition F))
      (rows : List (PositionRow F))
      → any (λ q. q.symbol == p.symbol) ps ≡ true
      → any (λ q. is_some (find_position account q.symbol (rows ++ (loaded_row account p ∷ [])))) ps
        ≡ true
  same_symbol-taken account p [] rows h = h
  same_symbol-taken account p (q ∷ ps) rows h = ground (
    arith,
    eq_iff q.symbol p.symbol,
    eq_iff p.symbol q.symbol,
    eq_refl account,
    find_position-append (loaded_row account p) account q.symbol rows,
    same_symbol-taken account p ps rows,
  )

  pub insert-repeated :
      (account : String) (a : AccountRow F) (ps : List (LoadedPosition F))
      (accounts : List (AccountRow F)) (rows : List (PositionRow F))
      → find_account account accounts ≡ some a
      → distinct ps ≡ false
      → insert_positions account ps accounts rows ≡ err unique_violation
  unfolding insert_positions
  insert-repeated account a [] accounts rows f h = cc
  insert-repeated account a (p ∷ ps) accounts rows f h = ground (
    arith,
    same_symbol-taken account p ps rows,
    insert-clash account a ps accounts (rows ++ (loaded_row account p ∷ [])),
    insert-repeated account a ps accounts (rows ++ (loaded_row account p ∷ [])),
  )

  -- The symbols that are free in a dict are free after a write to another.
  pub free-put :
      (p : LoadedPosition F) (v : Position F) (ps : List (LoadedPosition F)) (d : Dict (Position F))
      → any (λ q. q.symbol == p.symbol) ps ≡ false
      → All (λ q. get q.symbol d ≡ none) ps
      → All (λ q. get q.symbol (put p.symbol v d) ≡ none) ps
  free-put p v [] d n h = tt
  free-put p v (q ∷ ps) d n h = ground (
    arith,
    eq_iff q.symbol p.symbol,
    eq_iff p.symbol q.symbol,
    get-put p.symbol q.symbol v d,
    free-put p v ps d,
  )

  pub free-empty :
      (ps : List (LoadedPosition F)) → All (λ q. get {V = Position F} q.symbol [] ≡ none) ps
  unfolding get
  free-empty [] = tt
  free-empty (q ∷ ps) = (refl, free-empty ps)
