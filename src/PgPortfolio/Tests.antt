-- ===== src/PgPortfolio/Tests.antt =====
-- The Postgres portfolio at whole numbers.
use agenthedge.Prelude.{
  ◌≡◌, refl, Bool, true, false, none, some, List, [], ◌∷◌, String, ℤ, pos, negsuc, ok, err,
  if◌then◌else◌,
}
use agenthedge.Floats.{whole_floats}
use agenthedge.Portfolio.{Portfolio, LoadedPosition}
use agenthedge.PgPortfolio.Tables.{
  PortfolioDb, find_account, find_position, insert_account, fill_recorded, violates_unique,
}
use agenthedge.PgPortfolio.Store.{KeyedFill, unique_violation, ensure_account, apply_keyed}
use agenthedge.PgPortfolio.Loading.{snapshot, load_keyed}
use agenthedge.PgPortfolio.Agrees.{Deduped, Agrees}
use agenthedge.PgPortfolio.Start.{fresh, ensure_account-Agrees, reopened-refines}
use agenthedge.PgPortfolio.Refinement.{fill_all, deduped_all}
use agenthedge.PgPortfolio.Snapshot.{apply_keyed-snapshot_other}
use agenthedge.PgPortfolio.Once.{apply_keyed-once}
use agenthedge.PgPortfolio.Bulk.{deduped_load, load_keyed-branches}
use agenthedge.PgPortfolio.Inserts.{distinct}

abbrev before : String → String → Bool
before a b = true

abbrev no_rows : PortfolioDb ℤ
no_rows = record { accounts = []; positions = []; fills = [] }

abbrev opened : PortfolioDb ℤ
opened = ensure_account whole_floats 7 "main" (pos 1000) no_rows

abbrev start : Deduped whole_floats
start = fresh whole_floats 7 (pos 1000)

opened-Agrees : Agrees whole_floats "main" opened start
unfolding find_account find_position fill_recorded
opened-Agrees =
    ensure_account-Agrees whole_floats 7 "main" (pos 1000) no_rows refl (λ s. refl) (λ k. refl)

abbrev buy : KeyedFill ℤ
buy = record {
  symbol = "SPY";
  quantity = pos 10;
  price = pos 20;
  dedup_key = some "order-1:10";
  mirror_raises = false;
}

abbrev sell : KeyedFill ℤ
sell = record {
  symbol = "SPY";
  quantity = negsuc 3;
  price = pos 30;
  dedup_key = none;
  mirror_raises = false;
}

-- bought once although it is sent twice, with a refusal between
abbrev sent : List (KeyedFill ℤ)
sent =
    buy ∷ record buy { quantity = pos 0 } ∷ buy ∷ record sell { mirror_raises = true } ∷ sell ∷ []

reopened-refines_example :
    let first = fill_all whole_floats 7 "main" sent opened in
    let one = deduped_all whole_floats 7 sent start in
    let again =
      fill_all whole_floats 9 "main"
        (buy ∷ sell ∷ [])
        (ensure_account whole_floats 9 "main" (pos 5) first.1) in
    let two = deduped_all whole_floats 9 (buy ∷ sell ∷ []) one.1 in
    (first.0 ≡ one.0) × (again.0 ≡ two.0) × Agrees whole_floats "main" again.1 two.1
unfolding find_account find_position fill_recorded
reopened-refines_example =
    reopened-refines whole_floats 7 9 "main" (pos 1000) (pos 5) sent (buy ∷ sell ∷ []) no_rows
      (λ a b. refl) (refl, (refl, (refl, (refl, (refl, tt))))) (refl, (refl, tt)) refl (λ s. refl)
      (λ k. refl)

apply_keyed-once_example :
    let db' =
      (fill_all whole_floats 9 "main"
        (sell ∷ [])
        (apply_keyed whole_floats 8 "main" buy opened).1).1 in
    (apply_keyed whole_floats 10 "main" (record buy { quantity = pos 99 }) db').1 ≡ db'
unfolding apply_keyed find_account ensure_account insert_account fill_recorded violates_unique
apply_keyed-once_example =
    apply_keyed-once whole_floats 8 9 10 "main" "order-1:10" buy (record buy { quantity = pos 99 })
      (sell ∷ []) opened refl refl refl refl

apply_keyed-snapshot_other_example :
    snapshot before "spare" (apply_keyed whole_floats 8 "main" buy opened).1
    ≡ snapshot before "spare" opened
apply_keyed-snapshot_other_example =
    apply_keyed-snapshot_other whole_floats before 8 "main" "spare" buy opened refl

abbrev holdings : List (LoadedPosition ℤ)
holdings =
    record { symbol = "SPY"; quantity = pos 5; average_cost = pos 20 }
    ∷ record { symbol = "QQQ"; quantity = pos 6; average_cost = pos 30 }
    ∷ []

load_keyed-branches_example :
    let out = load_keyed 8 "main" holdings none opened in
    if distinct holdings
    then (out.0 ≡ ok tt)
      × Agrees whole_floats "main" out.1 (deduped_load whole_floats 8 holdings none start)
    else out ≡ (err unique_violation, opened)
load_keyed-branches_example =
    load_keyed-branches whole_floats 8 "main" holdings none opened start opened-Agrees
