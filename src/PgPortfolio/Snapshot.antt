-- ===== src/PgPortfolio/Snapshot.antt =====
-- What `snapshot` reads, and that no call on one account changes what another reads.
use agenthedge.Prelude.{
  ℕ, ◌≡◌, inl, inr, refl, Bool, false, [], String, ◌==◌, Option-cases, if_both, arith, Result,
}
use agenthedge.Floats.{Floats}
use agenthedge.Portfolio.{Portfolio, Fill}
use agenthedge.PgPortfolio.Tables.{AccountRow, PortfolioDb, find_account, select_positions}
use agenthedge.PgPortfolio.Store.{KeyedFill, DbError, already_filled, write_fill, apply_keyed}
use agenthedge.PgPortfolio.Loading.{ordered, load_rows, snapshot}
use agenthedge.PgPortfolio.Agrees.{Agrees}
use agenthedge.PgPortfolio.Unique.{write_position-other, update_account-other}

module _ {F : Type 0} where
  -- the portfolio that `snapshot` builds
  abbrev read_portfolio :
      (String → String → Bool) → String → AccountRow F → PortfolioDb F → Portfolio F
  read_portfolio before account a db = record {
    cash = a.cash;
    realized_pnl = a.realized_pnl;
    positions = load_rows (ordered before (select_positions account db.positions)) [];
    last_updated = a.last_updated;
  }

module _ (fl : Floats) where
  open fl use {F, eq_f, zero_f, le_f}

  -- an answer, with the tables
  abbrev pub Outcome : Type 0
  Outcome = Result DbError (Fill F) × PortfolioDb F

  -- Whatever holds of the tables, and after a fill that is written, holds after `apply_fill`.
  pub apply_keyed-keeps :
      (P : PortfolioDb F → Type 0) (now : ℕ) (account : String) (r : KeyedFill F)
      (db : PortfolioDb F)
      → P db
      → ((a : AccountRow F) → P (write_fill fl now account a r db).1)
      → P (apply_keyed fl now account r db).1
  unfolding apply_keyed
  apply_keyed-keeps P now account r db h k =
      if_both {A = Outcome} (λ out. P out.1) (eq_f r.quantity zero_f) h
        (if_both {A = Outcome} (λ out. P out.1) (le_f r.price zero_f) h
          (elim (Option-cases (find_account account db.accounts)) [
            | inl e ↦ rw e h
            | inr (a, e) ↦ rw e (
                if_both {A = Outcome} (λ out. P out.1)
                  (already_filled fl account r.dedup_key db.fills) h (k a))
          ]))

  -- what `snapshot` of the account depends on
  record SameView (account : String) (db db' : PortfolioDb F) : Type 0 where
    same_account : find_account account db'.accounts ≡ find_account account db.accounts
    same_positions : select_positions account db'.positions ≡ select_positions account db.positions

  SameView-snapshot :
      (before : String → String → Bool) (account : String) (db db' : PortfolioDb F)
      → SameView account db db'
      → snapshot before account db' ≡ snapshot before account db
  unfolding snapshot
  SameView-snapshot before account db db' v = ground arith

  write_fill-SameView :
      (now : ℕ) (account account' : String) (a : AccountRow F) (r : KeyedFill F)
      (db : PortfolioDb F)
      → (account == account') ≡ false
      → SameView account' db (write_fill fl now account a r db).1
  unfolding write_fill
  write_fill-SameView now account account' a r db n =
      if_both {A = Outcome} (λ out. SameView account' db out.1) _
        (record { same_account = refl; same_positions = refl })
        (if_both {A = Outcome} (λ out. SameView account' db out.1) r.mirror_raises
          (record { same_account = refl; same_positions = refl })
          (record {
            same_account = update_account-other _ account' db.accounts n;
            same_positions =
                write_position-other fl account r.symbol account' _ _ r.quantity r.price
                  db.positions n;
          }))

  -- A fill on one account, whatever it answers, leaves what `snapshot` of another account returns.
  pub apply_keyed-snapshot_other :
      (before : String → String → Bool) (now : ℕ) (account account' : String) (r : KeyedFill F)
      (db : PortfolioDb F)
      → (account == account') ≡ false
      → snapshot before account' (apply_keyed fl now account r db).1 ≡ snapshot before account' db
  apply_keyed-snapshot_other before now account account' r db n =
      SameView-snapshot before account' db (apply_keyed fl now account r db).1 (
        apply_keyed-keeps (SameView account' db) now account r db
          (record { same_account = refl; same_positions = refl })
          λ a. write_fill-SameView now account account' a r db n)
