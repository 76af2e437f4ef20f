-- ===== src/Risk/Stress.antt =====
-- `StressTestHarness` (src/risk/stress.py), and the tick of the risk agent that runs it
-- (`RiskAgent._maybe_run_stress_test`, src/agents/impl/risk.py).
use agenthedge.Prelude.{
  ◌+◌, Bool, List, [], ◌∷◌, ◌++◌, String, Dict, values, map, keep_if, ltb, if◌then◌else◌,
}
use Prim.Native.String.{◌++◌ as append}
use agenthedge.Values.{text, number, object, array, Items, nil, cons, field, end, Payload}
use agenthedge.Floats.{Floats}
use agenthedge.Portfolio.{Portfolio, max_f}
use agenthedge.Risk.{
  RiskSettings, RiskState, Scenario, audited, alerted, Outcome, after, nothing_done, observe,
  exposure_table, nav_of, gross_of, leverage_of,
}
use agenthedge.Risk.Watch.{kill_switch}

pub record StressResult (F : Type 0) : Type 0 where
  pub scenario : Scenario F
  pub pnl : F
  pub pnl_pct : F

module _ {F : Type 0} where
  -- `as_dict`
  unfoldable pub results_json : List (StressResult F) → Items F
  results_json [] = nil
  results_json (r ∷ results) =
      cons
        (object (
          field "scenario" (text r.scenario.name) (
            field "shock_pct" (number r.scenario.shock_pct)
              (field "pnl" (number r.pnl) (field "pnl_pct" (number r.pnl_pct) end)))))
        (results_json results)

module _ (fl : Floats) (cfg : RiskSettings (Floats.F fl)) where
  open fl use {F, one_f, mul_f, div_f, neg_f, abs_f, lt_f, le_f}

  -- `StressResult.breached`
  abbrev pub is_breached : F → StressResult F → Bool
  is_breached threshold_pct r = le_f r.pnl_pct (neg_f (abs_f threshold_pct))

  -- `StressTestHarness.run`
  unfoldable pub run_scenarios : F → Dict F → List (Scenario F) → List (StressResult F)
  unfolding max_f
  run_scenarios nav exposures [] = []
  run_scenarios nav exposures (s ∷ scenarios) =
      let pnl = cfg.sum (map (λ v. mul_f v s.shock_pct) (values exposures)) in
      record { scenario = s; pnl = pnl; pnl_pct = div_f pnl (max_f fl nav one_f) }
      ∷ run_scenarios nav exposures scenarios

  -- `min(breached, key=...)`: the first of the smallest
  unfoldable pub worst_of : StressResult F → List (StressResult F) → StressResult F
  worst_of best [] = best
  worst_of best (r ∷ results) = worst_of (if lt_f r.pnl_pct best.pnl_pct then r else best) results

  abbrev pub stress_payload : F → List (StressResult F) → Payload F
  stress_payload nav results =
      ("nav", number nav)
      ∷ ("stress_results", array (results_json results))
      ∷ ("threshold_pct", number cfg.stress_loss_threshold_pct)
      ∷ []

  abbrev pub on_breach : String → F → Payload F → List (StressResult F) → Outcome F
  on_breach now nav payload [] = nothing_done
  on_breach now nav payload (r ∷ results) =
      let worst = worst_of r results in
      after
        (alerted "risk_stress_breach"
            (payload
              ++ (("worst_scenario", text worst.scenario.name)
                  ∷ ("pnl_pct", number worst.pnl_pct)
                  ∷ []))
            "critical"
          ∷ [])
        (kill_switch fl cfg now (append "stress_breach:" worst.scenario.name)
          (("pnl_pct", number worst.pnl_pct) ∷ ("nav", number nav) ∷ []))

  -- the stress test itself
  unfoldable pub stress_test : String → RiskState F → Portfolio F → Outcome F
  unfolding run_scenarios worst_of results_json kill_switch nav_of exposure_table leverage_of
  stress_test now st snapshot =
      let nav = nav_of fl cfg st.latest_prices snapshot in
      let exposures = exposure_table fl st.latest_prices snapshot.positions in
      let results = run_scenarios nav exposures cfg.scenarios in
      let payload = stress_payload nav results in
      after
        (audited "risk_stress_run" payload
          ∷ observe cfg (
              ("nav", number nav)
              ∷ ("gross_exposure", number (gross_of fl cfg exposures))
              ∷ ("leverage", number (leverage_of fl cfg nav exposures))
              ∷ (
                "last_stress_run",
                object (
                    field "nav" (number nav) (
                      field "stress_results" (array (results_json results))
                        (field "threshold_pct" (number cfg.stress_loss_threshold_pct) end))),
              )
              ∷ []))
        (on_breach now nav payload (keep_if (is_breached cfg.stress_loss_threshold_pct) results))

  -- `_maybe_run_stress_test`
  unfoldable pub tick : String → Portfolio F → RiskState F → RiskState F × Outcome F
  unfolding stress_test
  tick now snapshot st =
      if ltb (st.ticks_since_stress + 1) cfg.stress_interval_ticks
      then (record st { ticks_since_stress = st.ticks_since_stress + 1 }, nothing_done)
      else (record st { ticks_since_stress = 0 }, stress_test now st snapshot)
