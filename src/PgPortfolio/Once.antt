-- ===== src/PgPortfolio/Once.antt =====
-- A fill whose key has been applied is never applied again (src/portfolio/postgres_store.py).
use agenthedge.Prelude.{
  ℕ, ◌≡◌, inl, inr, refl, ◌∙◌, Bool, true, false, some, List, [], ◌∷◌, String, ◌==◌, Option-cases,
  if_both, eq_refl, arith, Result, ok, err,
}
use agenthedge.Floats.{Floats}
use agenthedge.PgPortfolio.Tables.{
  AccountRow, PortfolioDb, find_account, find_position, fill_recorded,
}
use agenthedge.PgPortfolio.Store.{
  KeyedFill, already_filled, row_quantity, position_qty, fill_row, write_fill, apply_keyed,
}
use agenthedge.PgPortfolio.Rows.{fill_recorded-append}
use agenthedge.PgPortfolio.Snapshot.{Outcome, apply_keyed-keeps}
use agenthedge.PgPortfolio.Refinement.{fill_all}

-- the answer is not an exception
abbrev pub is_ok {ℓ} : {E A : Type ℓ} → Result E A → Bool
is_ok (ok a) = true
is_ok (err e) = false

module _ (fl : Floats) where
  open fl use {F, eq_f, zero_f, le_f}

  write_fill-keeps_key :
      (now : ℕ) (account account' k : String) (a : AccountRow F) (r : KeyedFill F)
      (db : PortfolioDb F)
      → fill_recorded account' k db.fills ≡ true
      → fill_recorded account' k (write_fill fl now account a r db).1.fills ≡ true
  unfolding write_fill
  write_fill-keeps_key now account account' k a r db h =
      if_both {A = Outcome fl} (λ out. fill_recorded account' k out.1.fills ≡ true) _ h
        (if_both {A = Outcome fl} (λ out. fill_recorded account' k out.1.fills ≡ true)
          r.mirror_raises h (fill_recorded-append _ account' k db.fills ∙ rw h refl))

  fill_all-keeps_key :
      (now : ℕ) (account account' k : String) (rs : List (KeyedFill F)) (db : PortfolioDb F)
      → fill_recorded account' k db.fills ≡ true
      → fill_recorded account' k (fill_all fl now account rs db).1.fills ≡ true
  unfolding fill_all
  fill_all-keeps_key now account account' k [] db h = h
  fill_all-keeps_key now account account' k (r ∷ rs) db h =
      fill_all-keeps_key now account account' k rs (apply_keyed fl now account r db).1 (
        apply_keyed-keeps fl (λ db. fill_recorded account' k db.fills ≡ true) now account r db h
          λ a. write_fill-keeps_key now account account' k a r db h)

  already_recorded :
      (account k : String) (r : KeyedFill F) (db : PortfolioDb F)
      → r.dedup_key ≡ some k
      → (k == "") ≡ false
      → fill_recorded account k db.fills ≡ true
      → already_filled fl account r.dedup_key db.fills ≡ true
  unfolding already_filled
  already_recorded account k r db e n h = rw (e, n) h

  -- A recorded key makes the call a read.
  recorded-reads :
      (now : ℕ) (account k : String) (r : KeyedFill F) (db : PortfolioDb F)
      → r.dedup_key ≡ some k
      → (k == "") ≡ false
      → fill_recorded account k db.fills ≡ true
      → (apply_keyed fl now account r db).1 ≡ db
  unfolding apply_keyed
  recorded-reads now account k r db e n h =
      let known = already_recorded account k r db e n h in
      if_both {A = Outcome fl} (λ out. out.1 ≡ db) (eq_f r.quantity zero_f) refl
        (if_both {A = Outcome fl} (λ out. out.1 ≡ db) (le_f r.price zero_f) refl
          (elim (Option-cases (find_account account db.accounts)) [
            | inl q ↦ rw q refl
            | inr (a, q) ↦ rw (q, known) refl
          ]))

  -- A fill that is not refused has its key recorded.
  ok-records :
      (now : ℕ) (account k : String) (r : KeyedFill F) (db : PortfolioDb F)
      → r.dedup_key ≡ some k
      → is_ok (apply_keyed fl now account r db).0 ≡ true
      → fill_recorded account k (apply_keyed fl now account r db).1.fills ≡ true
  unfolding apply_keyed already_filled write_fill
  ok-records now account k r db e o =
      let row = find_position account r.symbol db.positions in
      let held = position_qty fl (row_quantity fl row) r.quantity in
      ground (
        arith,
        eq_refl account,
        eq_refl k,
        fill_recorded-append (fill_row fl now account r held) account k db.fills,
      )

  -- A fill with a key that is not empty, once answered without an exception, is applied once: after
  -- any further fills of the account, a call with the same key, whatever its symbol, quantity and
  -- price, leaves every table as it is.
  pub apply_keyed-once :
      (now later now' : ℕ) (account k : String) (r r' : KeyedFill F) (rs : List (KeyedFill F))
      (db : PortfolioDb F)
      → (k == "") ≡ false
      → r.dedup_key ≡ some k
      → r'.dedup_key ≡ some k
      → is_ok (apply_keyed fl now account r db).0 ≡ true
      → let db' = (fill_all fl later account rs (apply_keyed fl now account r db).1).1 in
        (apply_keyed fl now' account r' db').1 ≡ db'
  apply_keyed-once now later now' account k r r' rs db n e e' o =
      let one = (apply_keyed fl now account r db).1 in
      recorded-reads now' account k r' (fill_all fl later account rs one).1 e' n
        (fill_all-keeps_key later account account k rs one (ok-records now account k r db e o))
