-- ===== src/Portfolio/Tests.antt =====
-- Fills at whole numbers.
use agenthedge.Prelude.{◌≡◌, refl, List, [], ◌∷◌, get, put, pop, ℤ, pos, negsuc}
use agenthedge.Floats.{whole_floats}
use agenthedge.Portfolio.{Portfolio, apply_fill, filled, position_or_new, realized, new_average}
use agenthedge.Portfolio.Ledger.{FillRequest, book_of, book_all, apply_all, apply_all-refines}

abbrev empty_store : Portfolio ℤ
empty_store = record { cash = pos 1000; realized_pnl = pos 0; positions = []; last_updated = 0 }

abbrev trades : List (FillRequest ℤ)
trades =
    record { symbol = "SPY"; quantity = pos 10; price = pos 20 }
    ∷ record { symbol = "SPY"; quantity = pos 10; price = pos 30 }
    ∷ record { symbol = "SPY"; quantity = negsuc 14; price = pos 40 }
    ∷ record { symbol = "QQQ"; quantity = pos 0; price = pos 40 }
    ∷ record { symbol = "SPY"; quantity = negsuc 4; price = pos 40 }
    ∷ []

-- 20 shares at an average cost of 25, sold at 40: a profit of 300, and no position is left.
trades_run :
    apply_all whole_floats 7 trades empty_store
    ≡ record { cash = pos 1300; realized_pnl = pos 300; positions = []; last_updated = 7 }
unfolding apply_all apply_fill filled realized position_or_new new_average get put pop
trades_run = refl

apply_all-refines_example :
    book_of whole_floats (apply_all whole_floats 7 trades empty_store)
    ≡ book_all whole_floats trades (book_of whole_floats empty_store)
apply_all-refines_example = apply_all-refines whole_floats 7 trades empty_store
