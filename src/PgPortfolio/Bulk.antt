-- ===== src/PgPortfolio/Bulk.antt =====
-- `bulk_load` of the Postgres store (src/portfolio/postgres_store.py) against that of
-- `PortfolioStore` (src/portfolio/store.py).
use agenthedge.Prelude.{
  ℕ, ◌≡◌, inl, inr, refl, ◌∙◌, true, not, Option, none, some, List, [], ◌∷◌, ◌++◌, String, Dict,
  get, put, get-put, if◌then◌else◌, ◌==◌, Bool-cases, &&_true, eq_iff, eq_refl, arith, any, All, ok,
  err,
}
use agenthedge.Floats.{Floats}
use agenthedge.Portfolio.{Position, LoadedPosition, load_positions, bulk_load}
use agenthedge.PgPortfolio.Tables.{
  AccountRow, PositionRow, PortfolioDb, find_account, find_position, delete_positions,
}
use agenthedge.PgPortfolio.Store.{unique_violation}
use agenthedge.PgPortfolio.Loading.{insert_positions, set_cash, load_keyed}
use agenthedge.PgPortfolio.Rows.{
  find_account-update, find_position-append, find_position-delete_all,
}
use agenthedge.PgPortfolio.Agrees.{Deduped, Agrees}
use agenthedge.PgPortfolio.Inserts.{distinct, loaded_row, insert-repeated, free-put, free-empty}

module _ (fl : Floats) where
  open fl use {F}

  -- Appending a row whose symbol is free is the write to the dict.
  find_position-put :
      (account : String) (p : LoadedPosition F) (rows : List (PositionRow F))
      (d : Dict (Position F))
      → ((j : String) → find_position account j rows ≡ get j d)
      → find_position account p.symbol rows ≡ none
      → (j : String)
      → find_position account j (rows ++ (loaded_row account p ∷ []))
        ≡ get j (put p.symbol (record { quantity = p.quantity; average_cost = p.average_cost }) d)
  find_position-put account p rows d e free j =
      let v : Position F = record { quantity = p.quantity; average_cost = p.average_cost } in
      ground (
        arith,
        eq_refl account,
        eq_iff p.symbol j,
        e j,
        find_position-append (loaded_row account p) account j rows,
        get-put p.symbol j v d,
      )

  load_keyed-ok :
      (now : ℕ) (account : String) (ps : List (LoadedPosition F)) (cash : Option F)
      (db : PortfolioDb F) (rows : List (PositionRow F)) (a : AccountRow F)
      → find_account account db.accounts ≡ some a
      → insert_positions account ps db.accounts (delete_positions account db.positions) ≡ ok rows
      → load_keyed now account ps cash db ≡ (
        ok tt,
        record {
          accounts = set_cash now account cash db.accounts;
          positions = rows;
          fills = db.fills;
        },
      )
  unfolding load_keyed set_cash
  load_keyed-ok now account ps cash db rows a f e = rw (load_keyed, e, f) refl

  insert-distinct :
      (account : String) (a : AccountRow F) (ps : List (LoadedPosition F))
      (accounts : List (AccountRow F)) (rows : List (PositionRow F)) (d : Dict (Position F))
      → find_account account accounts ≡ some a
      → ((j : String) → find_position account j rows ≡ get j d)
      → distinct ps ≡ true
      → All (λ q. get q.symbol d ≡ none) ps
      → (rows' : List (PositionRow F)) × (insert_positions account ps accounts rows ≡ ok rows')
        × ((j : String) → find_position account j rows' ≡ get j (load_positions fl ps d))
  unfolding insert_positions load_positions
  insert-distinct account a [] accounts rows d f e n h = (rows, refl, e)
  insert-distinct account a (p ∷ ps) accounts rows d f e n h =
      let v : Position F = record { quantity = p.quantity; average_cost = p.average_cost } in
      let new = loaded_row account p in
      let t = &&_true (not (any (λ q. q.symbol == p.symbol) ps)) (distinct ps) n in
      let rest =
        insert-distinct account a ps accounts (rows ++ (new ∷ [])) (put p.symbol v d) f
          (find_position-put account p rows d e (e p.symbol ∙ h.0)) t.1
          (free-put p v ps d (ground arith) h.1) in
      (rest.0, rw (e p.symbol, h.0, f) rest.1, rest.2)

  set_cash-found :
      (now : ℕ) (account : String) (cash : Option F) (a : AccountRow F)
      (accounts : List (AccountRow F))
      → find_account account accounts ≡ some a
      → (x : F) → a.cash ≡ x
      → (b : AccountRow F) × (find_account account (set_cash now account cash accounts) ≡ some b)
        × (b.cash ≡ (elim cash [ none ↦ x | some c ↦ c ]))
        × (b.realized_pnl ≡ a.realized_pnl)
  unfolding set_cash
  set_cash-found now account none a accounts f x e = (a, f, e, refl)
  set_cash-found now account (some c) a accounts f x e =
      let new : AccountRow F = record {
        account_id = account;
        cash = c;
        realized_pnl = a.realized_pnl;
        last_updated = now;
      } in
      (
        new,
        rw (set_cash, f) (find_account-update new account accounts ∙ rw (eq_refl account, f) refl),
        refl,
        refl,
      )

  -- the in-memory store after `bulk_load`
  abbrev pub deduped_load : ℕ → List (LoadedPosition F) → Option F → Deduped fl → Deduped fl
  deduped_load now ps cash d = record { store = bulk_load fl now ps cash d.store; used = d.used }

  -- From stores that agree, `bulk_load` of positions with distinct symbols returns and the stores
  -- agree again; with a repeated symbol it raises the violation of the primary key, and no table is
  -- changed.
  pub load_keyed-branches :
      (now : ℕ) (account : String) (ps : List (LoadedPosition F)) (cash : Option F)
      (db : PortfolioDb F) (d : Deduped fl)
      → Agrees fl account db d
      → let out = load_keyed now account ps cash db in
        if distinct ps
        then (out.0 ≡ ok tt) × Agrees fl account out.1 (deduped_load now ps cash d)
        else out ≡ (err unique_violation, db)
  unfolding bulk_load get load_keyed
  load_keyed-branches now account ps cash db d h =
      let kept = delete_positions account db.positions in
      elim (Bool-cases (distinct ps)) [
        | inl t ↦
            let o =
              insert-distinct account h.row ps db.accounts kept [] h.found
                (λ j.
                  find_position-delete_all account account j db.positions
                  ∙ rw (eq_refl account) refl)
                t (free-empty ps) in
            let c = set_cash-found now account cash h.row db.accounts h.found d.store.cash h.cash in
            rw (t, load_keyed-ok now account ps cash db o.0 h.row h.found o.1)
              (
                refl,
                record {
                  row = c.0;
                  found = c.1;
                  cash = c.2;
                  realized_pnl = c.3 ∙ h.realized_pnl;
                  held = o.2;
                  keys = h.keys;
                },
              )
        | inr n ↦
            rw (n, load_keyed, insert-repeated account h.row ps db.accounts kept h.found n) refl
      ]
