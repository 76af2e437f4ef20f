-- ===== src/BreakGlass/Tests.antt =====
-- One override of a minute.
use agenthedge.Prelude.{ℕ, ◌+◌, ◌≤◌, ◌≡◌, refl, List, [], ◌∷◌, String, ◌==◌, ◌&&◌, ◌||◌, ltb, pos}
use agenthedge.BreakGlass.{Override, new_row, activate, is_active}
use agenthedge.BreakGlass.Effect.{activate-is_active}

abbrev keep : String → String
keep s = s

abbrev one_row : List Override
one_row = new_row 5 "o1" "risk_limits" "drill" "ops" 60 ∷ []

activate-is_active_example :
    (ttl : ℕ) × (pos 60 ≡ pos ttl)
    × (1 ≤ ttl)
    × (ttl ≤ 3600)
    × (is_active 64 "risk_limits" one_row ≡ (
        is_active 64 "risk_limits" [] || (keep "risk_limits" == "risk_limits" && ltb 64 (5 + ttl))))
unfolding activate
activate-is_active_example =
    activate-is_active keep 3600 5 "o1" "risk_limits" "drill" "ops" "o1" (pos 60) [] one_row 64
      "risk_limits" refl
