-- ===== src/PgPortfolio/Agrees.antt =====
-- `PortfolioStore` (src/portfolio/store.py) with a set of used keys, and when the rows of the Postgres
-- store agree with it.
use agenthedge.Prelude.{
  ℕ, ◌≡◌, refl, sym, ◌∙◌, Bool, false, ◌&&◌, ◌||◌, Option, none, some, List, String, get, get-put,
  get-pop, if◌then◌else◌, ◌==◌, eq_iff, eq_refl, arith, Result, ok, err,
}
use agenthedge.Floats.{Floats}
use agenthedge.Portfolio.{
  Position, Portfolio, Fill, StoreError, position_or_new, realized, new_average, settle_position,
  quantity_of, fill_of, apply_fill,
}
use agenthedge.Portfolio.Ledger.{quantity_of-settle}
use agenthedge.PgPortfolio.Tables.{
  AccountRow, PositionRow, FillRow, PortfolioDb, find_account, find_position, has_key,
  fill_recorded, violates_unique,
}
use agenthedge.PgPortfolio.Store.{
  KeyedFill, DbError, refused, mirror_failed, already_filled, row_quantity, row_cost, closing_pnl,
  write_position, position_qty,
}
use agenthedge.PgPortfolio.Rows.{
  find_position-delete, find_position-upsert, find_position-upsert_quantity,
}

module _ (fl : Floats) where
  open fl use {F, zero_f, add_f, sub_f, mul_f, neg_f, le_f, eq_f}

  -- the in-memory store, and the keys of the fills that it has applied
  pub record Deduped : Type 0 where
    pub store : Portfolio F
    pub used : String → Bool

  abbrev pub key_used : Option String → (String → Bool) → Bool
  key_used none used = false
  key_used (some k) used = used k

  -- a fill whose key is used is answered from the store; any other is the in-memory
  -- fill, unless the mirror's write raises, which leaves the store as it was
  unfoldable pub answered :
      KeyedFill F
      → Deduped
      → Result StoreError (Fill F)
      → Portfolio F
      → Result DbError (Fill F) × Deduped
  answered r d (err e) st = (err (refused e), d)
  answered r d (ok f) st =
      if key_used r.dedup_key d.used
      then (ok (fill_of fl r.symbol d.store), d)
      else if r.mirror_raises
      then (err mirror_failed, d)
      else (ok f, record { store = st; used = λ k. d.used k || has_key k r.dedup_key })

  unfoldable pub deduped_fill : ℕ → KeyedFill F → Deduped → Result DbError (Fill F) × Deduped
  unfolding answered
  deduped_fill now r d =
      let res = apply_fill fl now r.symbol r.quantity r.price d.store in answered r d res.0 res.1

  -- What the rows of the account say is what the store says.
  pub record Agrees (account : String) (db : PortfolioDb F) (d : Deduped) : Type 0 where
    pub row : AccountRow F
    pub found : find_account account db.accounts ≡ some row
    pub cash : row.cash ≡ d.store.cash
    pub realized_pnl : row.realized_pnl ≡ d.store.realized_pnl
    pub held : (s : String) → find_position account s db.positions ≡ get s d.store.positions
    pub keys : (k : String) → fill_recorded account k db.fills ≡ d.used k

  pub closing_pnl-realized :
      (row : Option (Position F)) (quantity price : F)
      → closing_pnl fl (row_quantity fl row) (row_cost fl price row) quantity price
        ≡ realized fl (position_or_new fl row price) quantity price
  unfolding closing_pnl realized position_or_new
  closing_pnl-realized none quantity price = refl
  closing_pnl-realized (some p) quantity price = refl

  -- the position that a fill leaves
  abbrev pub settled : Position F → F → F → Option (Position F)
  settled p quantity price =
      let new_qty = add_f p.quantity quantity in
      if eq_f new_qty zero_f
      then none
      else some (record { quantity = new_qty; average_cost = new_average fl p quantity price })

  pub get-settle :
      (s j : String) (p : Position F) (quantity price : F) (d : List (String × Position F))
      → get j (settle_position fl s p quantity price d)
        ≡ (if s == j then settled p quantity price else get j d)
  unfolding settle_position
  get-settle s j p quantity price d =
      let p' : Position F = record {
        quantity = add_f p.quantity quantity;
        average_cost = new_average fl p quantity price;
      } in
      ground (arith, get-pop s j d, get-put s j p' d)

  pub find-write_position :
      (account s account' j : String) (quantity price : F) (rows : List (PositionRow F))
      (row : Option (Position F))
      → find_position account s rows ≡ row
      → find_position account' j (
          write_position fl account s
            (row_quantity fl row)
            (row_cost fl price row)
            quantity
            price
            rows)
        ≡ (if account == account' && s == j
            then settled (position_or_new fl row price) quantity price
            else find_position account' j rows)
  unfolding write_position position_or_new new_average
  find-write_position account s account' j quantity price rows none e =
      let new_qty = add_f zero_f quantity in
      let new : PositionRow F = record {
        account_id = account;
        symbol = s;
        quantity = new_qty;
        average_cost = new_average fl (position_or_new fl none price) quantity price;
      } in
      ground (
        arith,
        eq_iff account account',
        eq_iff s j,
        find_position-delete account s account' j rows,
        find_position-upsert new account' j rows,
        find_position-upsert_quantity (record new { average_cost = price }) account' j rows,
      )
  find-write_position account s account' j quantity price rows (some p) e =
      let new_qty = add_f p.quantity quantity in
      let new : PositionRow F = record {
        account_id = account;
        symbol = s;
        quantity = new_qty;
        average_cost = new_average fl p quantity price;
      } in
      ground (
        arith,
        eq_iff account account',
        eq_iff s j,
        find_position-delete account s account' j rows,
        find_position-upsert new account' j rows,
        find_position-upsert_quantity (record new { average_cost = p.average_cost }) account' j
            rows,
      )

  pub position_qty-settle :
      (s : String) (quantity price : F) (row : Option (Position F)) (d : List (String × Position F))
      → position_qty fl (row_quantity fl row) quantity
        ≡ quantity_of fl s (settle_position fl s (position_or_new fl row price) quantity price d)
  unfolding position_qty position_or_new
  position_qty-settle s quantity price none d = sym (
      quantity_of-settle fl s s quantity price (position_or_new fl none price) d
      ∙ rw (eq_refl s) refl)
  position_qty-settle s quantity price (some p) d =
      sym (quantity_of-settle fl s s quantity price p d ∙ rw (eq_refl s) refl)

  -- a key that is not the empty text
  abbrev pub IsProper : KeyedFill F → Type 0
  IsProper r = has_key "" r.dedup_key ≡ false

  -- An unused key can be written.
  pub unused_key :
      (account : String) (key : Option String) (fills : List (FillRow F)) (f : FillRow F)
      → f.account_id ≡ account
      → f.dedup_key ≡ key
      → has_key "" key ≡ false
      → already_filled fl account key fills ≡ false
      → violates_unique f fills ≡ false
  unfolding already_filled violates_unique
  unused_key account none fills f a e p u = rw e refl
  unused_key account (some k) fills f a e p u = rw (e, a) (ground arith)

  -- The test of the key is that of the set of used keys.
  pub already_filled-used :
      (account : String) (key : Option String) (fills : List (FillRow F)) (used : String → Bool)
      → ((k : String) → fill_recorded account k fills ≡ used k)
      → has_key "" key ≡ false
      → already_filled fl account key fills ≡ key_used key used
  unfolding already_filled
  already_filled-used account none fills used h p = refl
  already_filled-used account (some k) fills used h p = rw p (h k)

  -- Python's `a - b` is `a + -b`
  abbrev pub SubLaw : Type 0
  SubLaw = (a b : F) → sub_f a b ≡ add_f a (neg_f b)
