-- ===== src/PgPortfolio/Refinement.antt =====
-- The Postgres store (src/portfolio/postgres_store.py) does what `PortfolioStore`
-- (src/portfolio/store.py) does, but for the fills whose key it has applied.
use agenthedge.Prelude.{
  ℕ, ◌≡◌, inl, inr, refl, sym, ap, ◌∙◌, false, ◌||◌, List, [], ◌∷◌, String, get, Bool-cases,
  eq_refl, arith, All, Result, ok, err, if◌then◌else◌,
}
use agenthedge.Floats.{Floats}
use agenthedge.Portfolio.{
  Position, Fill, position_or_new, realized, settle_position, quantity_of, filled, fill_of,
  apply_fill,
}
use agenthedge.PgPortfolio.Tables.{AccountRow, PortfolioDb, find_position, has_key}
use agenthedge.PgPortfolio.Store.{
  KeyedFill, DbError, mirror_failed, already_filled, row_quantity, row_cost, closing_pnl,
  position_qty, fill_row, write_fill, apply_keyed,
}
use agenthedge.PgPortfolio.Rows.{find_account-update, fill_recorded-append}
use agenthedge.PgPortfolio.Agrees.{
  Deduped, key_used, answered, deduped_fill, closing_pnl-realized, get-settle, find-write_position,
  position_qty-settle, IsProper, unused_key, already_filled-used, SubLaw, Deduped, Agrees,
}

module _ (fl : Floats) where
  open fl use {F, zero_f, add_f, sub_f, mul_f, neg_f, le_f, eq_f}

  -- What the fill makes of the account and of the position is the same on both sides.
  new_cash-eq :
      (account : String) (db : PortfolioDb F) (d : Deduped fl) (x : F)
      → SubLaw fl
      → (h : Agrees fl account db d) → sub_f h.row.cash x ≡ add_f d.store.cash (neg_f x)
  new_cash-eq account db d x law h = law h.row.cash x ∙ ap (λ v. add_f v (neg_f x)) h.cash

  new_realized-eq :
      (account : String) (r : KeyedFill F) (db : PortfolioDb F) (d : Deduped fl)
      → (h : Agrees fl account db d)
      → let row = find_position account r.symbol db.positions in
        add_f h.row.realized_pnl
          (closing_pnl fl (row_quantity fl row) (row_cost fl r.price row) r.quantity r.price)
        ≡ add_f d.store.realized_pnl (
            realized fl
              (position_or_new fl (get r.symbol d.store.positions) r.price)
              r.quantity
              r.price)
  new_realized-eq account r db d h =
      let row = find_position account r.symbol db.positions in
      ap
        (λ v.
          add_f v
            (closing_pnl fl (row_quantity fl row) (row_cost fl r.price row) r.quantity r.price))
        h.realized_pnl
      ∙ ap (add_f d.store.realized_pnl) (
          closing_pnl-realized fl row r.quantity r.price
          ∙ ap (λ p. realized fl (position_or_new fl p r.price) r.quantity r.price)
              (h.held r.symbol))

  held-eq :
      (account : String) (r : KeyedFill F) (db : PortfolioDb F) (d : Deduped fl)
      → (h : Agrees fl account db d)
      → position_qty fl (row_quantity fl (find_position account r.symbol db.positions)) r.quantity
        ≡ quantity_of fl r.symbol (
            settle_position fl r.symbol
              (position_or_new fl (get r.symbol d.store.positions) r.price)
              r.quantity
              r.price
              d.store.positions)
  held-eq account r db d h =
      ap (λ p. position_qty fl (row_quantity fl p) r.quantity) (h.held r.symbol)
      ∙ position_qty-settle fl r.symbol r.quantity r.price (get r.symbol d.store.positions)
          d.store.positions

  write_fill-Agrees :
      (now : ℕ) (account : String) (r : KeyedFill F) (db : PortfolioDb F) (d : Deduped fl)
      → SubLaw fl
      → IsProper fl r
      → already_filled fl account r.dedup_key db.fills ≡ false
      → (h : Agrees fl account db d)
      → let st' = filled fl now r.symbol r.quantity r.price d.store in
        let out = write_fill fl now account h.row r db in
        let want : Result DbError (Fill F) × Deduped fl =
          if r.mirror_raises then (err mirror_failed, d) else (
            ok (fill_of fl r.symbol st'),
            record { store = st'; used = λ k. d.used k || has_key k r.dedup_key },
          ) in
        (out.0 ≡ want.0) × Agrees fl account out.1 want.1
  unfolding write_fill filled fill_of
  write_fill-Agrees now account r db d law p u h =
      let row = find_position account r.symbol db.positions in
      let fill = fill_row fl now account r (position_qty fl (row_quantity fl row) r.quantity) in
      let c = new_cash-eq account db d (mul_f r.quantity r.price) law h in
      let g = new_realized-eq account r db d h in
      let q = held-eq account r db d h in
      let new : AccountRow F = record {
        account_id = account;
        cash = sub_f h.row.cash (mul_f r.quantity r.price);
        realized_pnl =
            add_f h.row.realized_pnl
              (closing_pnl fl (row_quantity fl row) (row_cost fl r.price row) r.quantity r.price);
        last_updated = now;
      } in
      let fresh = unused_key fl account r.dedup_key db.fills fill refl refl p u in
      elim (Bool-cases r.mirror_raises) [
        | inl bad ↦ rw (fresh, bad) (refl, h)
        | inr quiet ↦
            rw (fresh, quiet)
              (
                λ i. ok (record { cash = c i; realized_pnl = g i; position_quantity = q i }),
                record {
                  row = new;
                  found =
                      find_account-update new account db.accounts
                      ∙ rw (eq_refl account, h.found) refl;
                  cash = c;
                  realized_pnl = g;
                  held = λ j.
                      find-write_position fl account r.symbol account j r.quantity r.price
                        db.positions row refl
                      ∙ rw (eq_refl account, h.held r.symbol, h.held j)
                          (sym (
                            get-settle fl r.symbol j
                              (position_or_new fl (get r.symbol d.store.positions) r.price)
                              r.quantity r.price d.store.positions));
                  keys = λ k.
                      fill_recorded-append fill account k db.fills
                      ∙ rw (eq_refl account, h.keys k) refl;
                },
              )
      ]

  row_quantity-get :
      (s : String) (d : List (String × Position F)) → row_quantity fl (get s d) ≡ quantity_of fl s d
  unfolding quantity_of
  row_quantity-get s d = ground arith

  -- the answer to a fill whose key is used
  same_fill :
      (account : String) (r : KeyedFill F) (db : PortfolioDb F) (d : Deduped fl)
      → (h : Agrees fl account db d)
      → ◌≡◌ {A = Result DbError (Fill F)}
          (ok (record {
            cash = h.row.cash;
            realized_pnl = h.row.realized_pnl;
            position_quantity = row_quantity fl (find_position account r.symbol db.positions);
          }))
          (ok (fill_of fl r.symbol d.store))
  unfolding fill_of
  same_fill account r db d h =
      let q =
        ap (row_quantity fl) (h.held r.symbol) ∙ row_quantity-get r.symbol d.store.positions in
      λ i. ok (record { cash = h.cash i; realized_pnl = h.realized_pnl i; position_quantity = q i })

  -- The answers of both stores are equal, and so are their states afterwards.
  pub apply_keyed-Agrees :
      (now : ℕ) (account : String) (r : KeyedFill F) (db : PortfolioDb F) (d : Deduped fl)
      → SubLaw fl
      → IsProper fl r
      → Agrees fl account db d
      → let out = apply_keyed fl now account r db in
        (out.0 ≡ (deduped_fill fl now r d).0) × Agrees fl account out.1 (deduped_fill fl now r d).1
  unfolding apply_keyed deduped_fill apply_fill answered
  apply_keyed-Agrees now account r db d law p h = elim (Bool-cases (eq_f r.quantity zero_f)) [
    | inl z ↦ rw z (refl, h)
    | inr n ↦ elim (Bool-cases (le_f r.price zero_f)) [
      | inl z ↦ rw (n, z) (refl, h)
      | inr m ↦
          let e = already_filled-used fl account r.dedup_key db.fills d.used h.keys p in
          elim (Bool-cases (key_used fl r.dedup_key d.used)) [
            | inl old ↦ rw (n, m, h.found, e, old) (same_fill account r db d h, h)
            | inr new ↦
                rw (n, m, h.found, e, new) (write_fill-Agrees now account r db d law p (e ∙ new) h)
          ]
    ]
  ]

  -- the fills of a list in turn, with the answers
  unfoldable pub fill_all :
      ℕ
      → String
      → List (KeyedFill F)
      → PortfolioDb F
      → List (Result DbError (Fill F)) × PortfolioDb F
  fill_all now account [] db = ([], db)
  fill_all now account (r ∷ rs) db =
      let out = apply_keyed fl now account r db in
      let rest = fill_all now account rs out.1 in (out.0 ∷ rest.0, rest.1)

  unfoldable pub deduped_all :
      ℕ → List (KeyedFill F) → Deduped fl → List (Result DbError (Fill F)) × Deduped fl
  deduped_all now [] d = ([], d)
  deduped_all now (r ∷ rs) d =
      let out = deduped_fill fl now r d in
      let rest = deduped_all now rs out.1 in (out.0 ∷ rest.0, rest.1)

  -- If `a - b` is `a + -b` and no key is the empty text, then over any list of fills the Postgres
  -- store gives the answers of the in-memory store that skips a fill whose key it has applied, and
  -- leaves out one where the write of the mirror raises, refusals included, and ends in the same cash, profit, positions and used keys.
  pub fill_all-refines :
      (now : ℕ) (account : String) (rs : List (KeyedFill F)) (db : PortfolioDb F) (d : Deduped fl)
      → SubLaw fl
      → All (IsProper fl) rs
      → Agrees fl account db d
      → let out = fill_all now account rs db in
        (out.0 ≡ (deduped_all now rs d).0) × Agrees fl account out.1 (deduped_all now rs d).1
  unfolding fill_all deduped_all
  fill_all-refines now account [] db d law p h = (refl, h)
  fill_all-refines now account (r ∷ rs) db d law p h =
      let one = apply_keyed-Agrees now account r db d law p.0 h in
      let rest =
        fill_all-refines now account rs (apply_keyed fl now account r db).1
          (deduped_fill fl now r d).1 law p.1 one.1 in
      (λ i. one.0 i ∷ rest.0 i, rest.1)
