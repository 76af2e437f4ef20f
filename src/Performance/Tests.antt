-- ===== src/Performance/Tests.antt =====
-- A strategy that wins once and is then penalised.
use agenthedge.Prelude.{◌≡◌, refl, true, false, none, List, [], ◌∷◌, ℤ, pos, negsuc, ltb_ℤ, arith}
use agenthedge.Floats.{whole_floats}
use agenthedge.Values.{number, text}
use agenthedge.Performance.{Tracker, Scale}
use agenthedge.Performance.Weights.{
  Call, fill, feedback, WeightLaws, AllTracked, react_all, react_all-AllTracked,
}

abbrev scale : Scale whole_floats
scale = record {
  of_count = λ n. pos n;
  round4 = λ x. x;
  lowest = pos 1;
  highest = pos 25;
  half = pos 5;
  minus_half = negsuc 4;
  forty = pos 40;
  ten_thousand = pos 10000;
  tenth = pos 1;
}

asymmetric_lem : (a b : ℤ) → ltb_ℤ a b ≡ true → ltb_ℤ b a ≡ false
asymmetric_lem a b h = ground arith

laws : WeightLaws whole_floats scale
laws = record { asymmetric = asymmetric_lem; ordered = refl }

abbrev calls : List (Call ℤ)
calls =
    fill 1 ((("strategy", text "momentum") ∷ ("confidence", number (pos 1)) ∷ []) ∷ [])
      (number (pos 7))
    ∷ feedback 2 "momentum" (negsuc 2)
    ∷ []

abbrev fresh : Tracker ℤ
fresh = record { strategies = []; last_realized_pnl = none }

react_all-AllTracked_example :
    AllTracked whole_floats scale (react_all whole_floats scale calls fresh).strategies
react_all-AllTracked_example = react_all-AllTracked whole_floats scale calls fresh laws tt
