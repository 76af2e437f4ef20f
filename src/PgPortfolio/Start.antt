-- ===== src/PgPortfolio/Start.antt =====
-- The constructor of the Postgres store (src/portfolio/postgres_store.py).
use agenthedge.Prelude.{ℕ, ◌≡◌, refl, ◌∙◌, false, none, [], List, String, get, All, eq_refl}
use agenthedge.Floats.{Floats}
use agenthedge.PgPortfolio.Tables.{PortfolioDb, find_account, find_position, fill_recorded}
use agenthedge.PgPortfolio.Store.{KeyedFill, ensure_account}
use agenthedge.PgPortfolio.Rows.{find_account-insert}
use agenthedge.PgPortfolio.Agrees.{Deduped, Agrees, SubLaw, IsProper}
use agenthedge.PgPortfolio.Refinement.{fill_all, deduped_all, fill_all-refines}

module _ (fl : Floats) where
  open fl use {F, zero_f}

  -- the new in-memory store
  abbrev pub fresh : ℕ → F → Deduped fl
  fresh now initial_cash = record {
    store = record {
      cash = initial_cash;
      realized_pnl = zero_f;
      positions = [];
      last_updated = now;
    };
    used = λ k. false;
  }

  -- Opening an account that has no rows gives the new store.
  pub ensure_account-Agrees :
      (now : ℕ) (account : String) (initial_cash : F) (db : PortfolioDb F)
      → find_account account db.accounts ≡ none
      → ((s : String) → find_position account s db.positions ≡ none)
      → ((k : String) → fill_recorded account k db.fills ≡ false)
      → Agrees fl account (ensure_account fl now account initial_cash db) (fresh now initial_cash)
  unfolding ensure_account get
  ensure_account-Agrees now account initial_cash db f p k = record {
    row = record {
      account_id = account;
      cash = initial_cash;
      realized_pnl = zero_f;
      last_updated = now;
    };
    found = find_account-insert _ account db.accounts ∙ rw (f, eq_refl account) refl;
    cash = refl;
    realized_pnl = refl;
    held = p;
    keys = k;
  }

  -- Opening it again, with whatever initial cash, changes nothing that the store says.
  pub ensure_account-keeps :
      (now : ℕ) (account : String) (initial_cash : F) (db : PortfolioDb F) (d : Deduped fl)
      → Agrees fl account db d
      → Agrees fl account (ensure_account fl now account initial_cash db) d
  unfolding ensure_account
  ensure_account-keeps now account initial_cash db d h = record {
    row = h.row;
    found = find_account-insert _ account db.accounts ∙ rw h.found refl;
    cash = h.cash;
    realized_pnl = h.realized_pnl;
    held = h.held;
    keys = h.keys;
  }

  -- If `a - b` is `a + -b` and no key is the empty text: a store that is opened on an account without
  -- rows, applies some fills, and is opened again, with whatever initial cash, for further fills gives
  -- the answers of one in-memory store that goes through all the fills, skips those whose key it has
  -- applied, and leaves out those where the write of the mirror raises, which raise, refusals included,
  -- and ends in its cash, profit, positions and used keys.
  pub reopened-refines :
      (now later : ℕ) (account : String) (initial_cash initial_cash' : F)
      (rs rs' : List (KeyedFill F)) (db : PortfolioDb F)
      → SubLaw fl
      → All (IsProper fl) rs
      → All (IsProper fl) rs'
      → find_account account db.accounts ≡ none
      → ((s : String) → find_position account s db.positions ≡ none)
      → ((k : String) → fill_recorded account k db.fills ≡ false)
      → let first = fill_all fl now account rs (ensure_account fl now account initial_cash db) in
        let one = deduped_all fl now rs (fresh now initial_cash) in
        let again =
          fill_all fl later account rs' (ensure_account fl later account initial_cash' first.1) in
        let two = deduped_all fl later rs' one.1 in
        (first.0 ≡ one.0) × (again.0 ≡ two.0) × Agrees fl account again.1 two.1
  reopened-refines now later account initial_cash initial_cash' rs rs' db law p p' f e k =
      let opened = ensure_account-Agrees now account initial_cash db f e k in
      let (answers, agreed) =
        fill_all-refines fl now account rs (ensure_account fl now account initial_cash db)
          (fresh now initial_cash) law p opened in
      let first = fill_all fl now account rs (ensure_account fl now account initial_cash db) in
      let d = (deduped_all fl now rs (fresh now initial_cash)).1 in
      let (answers', agreed') =
        fill_all-refines fl later account rs'
          (ensure_account fl later account initial_cash' first.1) d law p'
          (ensure_account-keeps later account initial_cash' first.1 d agreed) in
      (answers, answers', agreed')
